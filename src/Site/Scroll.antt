-- ===== src/Site/Scroll.antt =====
-- akka_doc/_static/scrollTo.js: the handler of the links in the table of contents.
pub mod Follow
mod Tests
use sbt_example.Common.{
  ℕ, zero, suc, ◌+◌, ◌-◌, Str, units, Bool, true, Option, none, some, List, [], ◌∷◌, ◌++◌,
  get_elem?, Outcome, ok, throw, type_error, ltb, if◌then◌else◌, map,
}
use sbt_example.Effects.Colors.{ℤ, pos, negsuc}
use sbt_example.Effects.Flash.{Flash, Element, enqueue}

-- An element of the page: its `id` attribute, how far it is from the top, and what flashes do to
-- it.
pub record Target : Type 0 where
  pub id : Option Str
  pub top : ℕ
  pub element : Element

-- The elements in the order of the document, the values that `scrollTop` is still to be animated
-- to, and whether the browser's own jump is prevented.
pub record Window : Type 0 where
  pub targets : List Target
  pub scrolls : List ℤ
  pub prevented : Bool

-- `offset().top -= 5`.
unfoldable pub above : ℕ → ℤ
above top = if ltb top 5 then negsuc (4 - top) else pos (top - 5)

-- `{color: "#FFCC85"}`.
abbrev pub flash : Flash
flash = record { mode = none; color = some (units "#FFCC85"); callback = none }

-- `.effect("highlight", …)` on the element at position `i`.
unfoldable pub flash_at : ℕ → List Target → List Target
flash_at i [] = []
flash_at zero (t ∷ ts) = record t { element = enqueue t.element.running flash t.element } ∷ ts
flash_at (suc i) (t ∷ ts) = t ∷ flash_at i ts

-- The body of the handler from the first animation on, where the hash finds the element at
-- position `i` or none; `offset()` of none is null.
unfoldable pub scroll_to : Option ℕ → Window → Outcome Window
scroll_to none w = throw type_error
scroll_to (some i) w = elim (get_elem? w.targets i) [
  | none ↦ throw type_error
  | some t ↦ ok (record w {
    targets = flash_at i w.targets;
    scrolls = w.scrolls ++ pos t.top ∷ above t.top ∷ [];
  })
]

-- Which element `$(this.hash)` finds for a link with the given `href`, if any.
module _ (find : Str → List (Option Str) → Option ℕ) where
  unfoldable pub click_scroll : Str → Window → Outcome Window
  click_scroll href w =
      scroll_to (find href (map (λ t. t.id) w.targets)) (record w { prevented = true })
