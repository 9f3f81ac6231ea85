-- ===== src/Effects/Units.antt =====
-- effects.core.js: `getBaseline`, `cssUnit` and `setTransition`.
pub mod Laws
mod Tests
use sbt_example.Common.{
  ℕ, Str, units, same, Bool, true, false, Option, none, some, List, [], ◌∷◌, ◌++◌, if◌then◌else◌,
  ltb,
}
use sbt_example.Js.Text.{index_of}
use sbt_example.Js.Number.{Numbers, ◌*◌, ◌/◌, ◌<◌, whole, decimal}
use sbt_example.Effects.Flash.{Style, set_property}

-- A part of an origin: a word, or a number.
pub data Origin (A : Type 0) : Type 0 where
  word : Str → Origin A
  amount : A → Origin A

pub record Baseline (A : Type 0) : Type 0 where
  pub x : A
  pub y : A

-- Whether a text has the unit behind something: `style.indexOf(unit) > 0`.
unfoldable pub has_unit : Str → Str → Bool
has_unit unit style = elim (index_of unit style) [ none ↦ false | some i ↦ ltb 0 i ]

-- The units that `cssUnit` tries; the last one that is found counts.
unfoldable pub unit_of : List Str → Str → Option Str → Option Str
unit_of [] style found = found
unit_of (unit ∷ rest) style found =
    unit_of rest style (if has_unit unit style then some unit else found)

abbrev pub css_units : List Str
css_units = units "em" ∷ units "px" ∷ units "%" ∷ units "pt" ∷ []

-- `to_number`, `parseFloat` and the text of a number are functions of the language.
module _ {A : Type 0} ⦃n : Numbers A⦄ (to_number : Str → A) where
  -- One part of a baseline, with the words for 0, 0.5 and 1.
  unfoldable pub baseline_part : Str → Str → Str → A → Origin A → A
  baseline_part near middle far size (amount a) = a / size
  baseline_part near middle far size (word s) =
      if same s near
      then whole 0
      else if same s middle
      then decimal 5 1
      else if same s far
      then whole 1
      else to_number s / size

  -- `getBaseline`, by the two parts of `origin` and the size of `original`.
  unfoldable pub get_baseline : Origin A → Origin A → A → A → Baseline A
  get_baseline vertical horizontal height width = record {
    x = baseline_part (units "left") (units "center") (units "right") width horizontal;
    y = baseline_part (units "top") (units "middle") (units "bottom") height vertical;
  }

unfoldable pub put_scaled : Str → Option Str → Style → Style
put_scaled key none val = val
put_scaled key (some v) val = set_property key v val

module _ {A : Type 0} ⦃n : Numbers A⦄ (parse_float : Str → A) (text_of : A → Str)
    (css : Str → Str) where
  -- `cssUnit`: nothing stands for the empty array.
  unfoldable pub css_unit : Str → Option (A × Str)
  css_unit key = elim (unit_of css_units (css key) none) [
    | none ↦ none
    | some unit ↦ some (parse_float (css key), unit)
  ]

  -- What a name of the list gets: `if (unit[0] > 0) val[x] = unit[0] * factor + unit[1]`.
  unfoldable pub scaled : A → Str → Option Str
  scaled factor key = elim (css_unit key) [
    | none ↦ none
    | some (size, unit) ↦ if whole 0 < size then some (text_of (size * factor) ++ unit) else none
  ]

  -- `setTransition`, where `val` is the object to add to.
  unfoldable pub set_transition : List Str → A → Style → Style
  set_transition [] factor val = val
  set_transition (key ∷ keys) factor val =
      set_transition keys factor (put_scaled key (scaled factor key) val)
