-- ===== src/Effects/Units/Tests.antt =====
-- Sizes of a heading (effects.core.js), with whole numbers for the numbers.
use sbt_example.Common.{
  ℕ, ◌≡◌, refl, Str, units, same, Option, none, some, List, [], ◌∷◌, ltb, if◌then◌else◌, length,
}
use sbt_example.Js.Text.{index_of}
use sbt_example.Js.Decimal.{decimal, digits_from}
use sbt_example.Js.Number.{Numbers}
use sbt_example.Effects.Flash.{set_property}
use sbt_example.Effects.Units.{has_unit, unit_of, css_unit, scaled, put_scaled, set_transition}

instance abbrev naturals : Numbers ℕ
naturals = record {
  decimal = λ digits places. digits;
  plus = Prim.Native.Nat.◌+◌;
  minus = Prim.Native.Nat.◌-◌;
  times = Prim.Native.Nat.◌*◌;
  divided = Prim.Native.Nat.◌/◌;
  negative = λ x. 0;
  less = ltb;
  equal = sbt_example.Common.◌==◌;
  sqrt = λ x. x;
  pow = Prim.Native.Nat.◌^◌;
  sin = λ x. x;
  cos = λ x. x;
  asin = λ x. x;
  abs = λ x. x;
  pi = 3;
}

-- A heading is twelve pixels wide; of its height the browser says nothing.
abbrev css : Str → Str
css k = if same k (units "width") then units "12px" else units "auto"

abbrev twelve : Str → ℕ
twelve s = 12

abbrev sides : List Str
sides = units "width" ∷ units "height" ∷ []

heading-scaled : set_transition twelve decimal css sides 3 [] ≡ (units "width", units "36px") ∷ []
unfolding set_transition scaled css_unit unit_of has_unit index_of put_scaled set_property same
    decimal digits_from
heading-scaled = refl
