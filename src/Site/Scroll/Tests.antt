-- ===== src/Site/Scroll/Tests.antt =====
-- A click on an entry of the table of contents (scrollTo.js).
use sbt_example.Common.{
  ℕ, ◌≡◌, refl, Str, units, same, Bool, false, Option, none, some, List, [], ◌∷◌, map,
}
use sbt_example.Js.Text.{index_of, is_found}
use sbt_example.Toc.Outline.{entry_of, append_to_toc, descend, append_leaf, ensure_list, in_last}
use sbt_example.Toc.Numbering.{counter}
use sbt_example.Toc.Anchor.{generate_id, is_unwanted}
use sbt_example.Toc.Build.{
  Heading, State, defaults, mentions, selected, is_selected, build_toc, indexes, indexes_from,
  visit_levels, visit, list_heading, give_id, lacks_id, shown_id,
}
use sbt_example.Effects.Colors.{pos, negsuc}
use sbt_example.Effects.Flash.{Element}
use sbt_example.Site.Scroll.{Target, Window, above}
use sbt_example.Site.Scroll.Follow.{first_with}

-- The first element with the id behind the number sign.
abbrev find : Str → List (Option Str) → Option ℕ
find [] ids = none
find (c ∷ id) ids = first_with id ids

abbrev header_only : Str → Heading → Bool
header_only s h = same s (units " :header")

abbrev heading : Heading
heading = record { node = 0; level = 2; id = none; text = units "Fault Tolerance" }

abbrev named : Heading
named = record heading { id = some (units "Fault_Tolerance") }

built : List Heading → State
unfolding build_toc selected is_selected indexes indexes_from visit_levels visit list_heading
    give_id lacks_id shown_id mentions is_found index_of generate_id is_unwanted entry_of
    append_to_toc descend append_leaf ensure_list in_last counter same
built = build_toc header_only defaults

abbrev element : Element
element = record {
  style = [];
  storage = [];
  hidden = false;
  noted = [];
  shows = λ display noted. (display, noted);
  notes = λ display noted. noted;
  queue = [];
  running = none;
  called = [];
}

abbrev target : Target
target = record { id = some (units "Fault_Tolerance"); top = 120; element = element }

abbrev window : Window
window = record {
  targets = record target { id = some (units "toc"); top = 3 } ∷ target ∷ [];
  scrolls = [];
  prevented = false;
}

-- Four pixels below the top the animation goes above the page.
above_four : map above (4 ∷ 5 ∷ []) ≡ negsuc 0 ∷ pos 0 ∷ []
unfolding above
above_four = refl
