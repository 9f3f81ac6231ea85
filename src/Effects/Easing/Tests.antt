-- ===== src/Effects/Easing/Tests.antt =====
-- The easing equations (effects.core.js) over numbers modulo three.
use sbt_example.Common.{ℕ, zero, suc, ◌≡◌, ◌≢◌, refl, Bool, true, false, ◌++◌, All}
use sbt_example.Js.Number.{Numbers}
use sbt_example.Js.Number.Laws.{NumberLaws}
use sbt_example.Effects.Easing.Ends.{powers, others, eases-ends}

-- Zero, one, and minus one, which is also two.
data Third : Type 0 where
  nought one minus : Third

abbrev opposite : Third → Third
opposite nought = nought
opposite one = minus
opposite minus = one

abbrev sum : Third → Third → Third
sum nought y = y
sum x nought = x
sum one one = minus
sum one minus = nought
sum minus one = nought
sum minus minus = one

abbrev next : Third → Third
next x = sum x one

abbrev third_of : ℕ → Third
third_of zero = nought
third_of (suc k) = next (third_of k)

abbrev product : Third → Third → Third
product nought y = nought
product one y = y
product minus y = opposite y

abbrev alike : Third → Third → Bool
alike nought nought = true
alike one one = true
alike minus minus = true
alike _ _ = false

abbrev below : Third → Third → Bool
below nought one = true
below _ _ = false

abbrev power : Third → Third → Third
power x nought = one
power x _ = x

instance abbrev thirds : Numbers Third
thirds = record {
  decimal = λ digits places. third_of digits;
  plus = sum;
  minus = λ x y. sum x (opposite y);
  times = product;
  divided = product;
  negative = opposite;
  less = below;
  equal = alike;
  sqrt = λ x. x;
  pow = power;
  sin = λ x. x;
  cos = λ x. x;
  asin = λ x. x;
  abs = λ x. x;
  pi = nought;
}

alike_ne : (x y : Third) → x ≢ y → alike x y ≡ false
alike_ne nought nought h = absurd (h refl)
alike_ne one one h = absurd (h refl)
alike_ne minus minus h = absurd (h refl)
alike_ne nought one h = refl
alike_ne nought minus h = refl
alike_ne one nought h = refl
alike_ne one minus h = refl
alike_ne minus nought h = refl
alike_ne minus one h = refl

sum_comm : (x y : Third) → sum x y ≡ sum y x
sum_comm = elim [
  | nought ↦ elim [ nought ↦ refl | one ↦ refl | minus ↦ refl ]
  | one ↦ elim [ nought ↦ refl | one ↦ refl | minus ↦ refl ]
  | minus ↦ elim [ nought ↦ refl | one ↦ refl | minus ↦ refl ]
]

opposites : (x y : Third) → product (opposite x) (opposite y) ≡ product x y
opposites = elim [
  | nought ↦ elim [ nought ↦ refl | one ↦ refl | minus ↦ refl ]
  | one ↦ elim [ nought ↦ refl | one ↦ refl | minus ↦ refl ]
  | minus ↦ elim [ nought ↦ refl | one ↦ refl | minus ↦ refl ]
]

opposite_part : (x y : Third) → product (opposite x) y ≡ opposite (product x y)
opposite_part = elim [
  | nought ↦ elim [ nought ↦ refl | one ↦ refl | minus ↦ refl ]
  | one ↦ elim [ nought ↦ refl | one ↦ refl | minus ↦ refl ]
  | minus ↦ elim [ nought ↦ refl | one ↦ refl | minus ↦ refl ]
]

abbrev third_laws : NumberLaws Third
third_laws = record {
  IsOrdinary = λ x. Unit;
  whole-IsOrdinary = λ k le. tt;
  neg-IsOrdinary = λ x h. tt;
  add_comm = sum_comm;
  zero_add = λ x. refl;
  sub_zero = elim [ nought ↦ refl | one ↦ refl | minus ↦ refl ];
  zero_sub = λ x. refl;
  mul_one = elim [ nought ↦ refl | one ↦ refl | minus ↦ refl ];
  one_mul = λ x. refl;
  neg_mul_neg = opposites;
  neg_div = opposite_part;
  sub_self = elim [ nought ↦ λ h. refl | one ↦ λ h. refl | minus ↦ λ h. refl ];
  neg_add = elim [ nought ↦ λ h. refl | one ↦ λ h. refl | minus ↦ λ h. refl ];
  mul_zero = elim [ nought ↦ λ h. refl | one ↦ λ h. refl | minus ↦ λ h. refl ];
  zero_mul = λ x h. refl;
  half_zero = elim [ nought ↦ λ h. refl | one ↦ λ h. refl | minus ↦ λ h. refl ];
  half_two = elim [ nought ↦ λ h. refl | one ↦ λ h. refl | minus ↦ λ h. refl ];
  zero_div = λ x h e. refl;
  zero_div_half = λ x h e. refl;
  div_self = elim [ nought ↦ λ h e. absurd (e refl) | one ↦ λ h e. refl | minus ↦ λ h e. refl ];
  div_half = elim [ nought ↦ λ h e. absurd (e refl) | one ↦ λ h e. refl | minus ↦ λ h e. refl ];
  equal_self = elim [ nought ↦ λ h. refl | one ↦ λ h. refl | minus ↦ λ h. refl ];
  equal_ne = λ x y h k e. alike_ne x y e;
  two_sub_one = refl;
  one_sub_two = refl;
  neg_one_sub_one = refl;
  one_add_one = refl;
  zero_lt_one = refl;
  two_lt_one = refl;
  sqrt_zero = refl;
  sqrt_one = refl;
  pow_zero = λ x. refl;
}

moving : minus ≢ nought
moving e = cc

eases-ends_example :
    All
      (λ ease. (ease nought one minus minus ≡ one) × (ease minus one minus minus ≡ sum minus one))
      (powers Third ++ others Third)
eases-ends_example = eases-ends third_laws one minus minus tt tt tt moving
