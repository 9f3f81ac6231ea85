-- ===== src/Site/Reading.antt =====
-- scrollTo.js with effects.highlight.js: a reader of the table of contents, who follows its links
-- while flashes run.
pub mod Laws
mod Tests
use sbt_example.Common.{ℕ, zero, suc, ◌≡◌, Str, Option, List, [], ◌∷◌, ok}
use sbt_example.Effects.Flash.{ended, happen}
use sbt_example.Site.Scroll.{Target, Window, click_scroll}

-- The animation of the element at position `i` ends.
unfoldable pub end_at : ℕ → List Target → List Target
end_at i [] = []
end_at zero (t ∷ ts) = record t { element = happen ended t.element } ∷ ts
end_at (suc i) (t ∷ ts) = t ∷ end_at i ts

module _ (find : Str → List (Option Str) → Option ℕ) where
  -- A click on a link with the given `href` that finds its element, or the end of an animation.
  pub data Step : Window → Window → Type 0 where
    follows : {w after : Window} (href : Str) → click_scroll find href w ≡ ok after → Step w after
    ends : (w : Window) (i : ℕ) → Step w (record w { targets = end_at i w.targets })

  pub data Reach (start : Window) : Window → Type 0 where
    here : Reach start start
    next : {w after : Window} → Reach start w → Step w after → Reach start after
