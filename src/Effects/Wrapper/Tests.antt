-- ===== src/Effects/Wrapper/Tests.antt =====
-- A heading in a box (effects.core.js).
use sbt_example.Common.{◌≡◌, refl, Str, units, same, false, none, some, [], ◌∷◌, if◌then◌else◌}
use sbt_example.Effects.Flash.{property, set_property}
use sbt_example.Effects.Wrapper.{Held, is_wrapped, set_all, inner_place, wrap, create_wrapper}

-- The browser computes what the style says, and `auto` or `static` where it says nothing.
computed : Str → Held → Str
unfolding property same
computed name el = elim (property name el.element.style) [
  | [] ↦ if same name (units "position") then units "static" else units "auto"
  | c ∷ s ↦ c ∷ s
]

abbrev heading : Held
heading = record {
  element = record {
    style = (units "position", units "absolute") ∷ (units "top", units "12px") ∷ [];
    storage = [];
    hidden = false;
    noted = [];
    shows = λ display noted. (display, noted);
    notes = λ display noted. noted;
    queue = [];
    running = none;
    called = [];
  };
  parents = record { id = some (units "content"); style = [] } ∷ [];
}

heading-created :
    (create_wrapper computed (λ el. units "80px") (λ el. units "20px") heading).0.element.style
    ≡ (units "position", units "relative")
      ∷ (units "top", units "0px")
      ∷ (units "left", units "0px")
      ∷ []
unfolding create_wrapper is_wrapped wrap inner_place set_all set_property computed same
heading-created = refl
