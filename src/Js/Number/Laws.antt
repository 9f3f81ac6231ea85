-- ===== src/Js/Number/Laws.antt =====
-- What the arithmetic of the language says of its numbers, where the two zeros are one.
use sbt_example.Common.{ℕ, ◌≡◌, ◌≢◌, ◌≤◌, true, false}
use sbt_example.Js.Number.{Numbers, ◌+◌, ◌-◌, ◌*◌, ◌/◌, ◌==◌, neg, whole}

-- `IsOrdinary` holds of zero and of numbers far from the least and the greatest ones: no operation
-- below overflows on them or loses digits at the lower end. No sum or product of three numbers is
-- regrouped, since rounding may tell the two apart.
pub record NumberLaws (A : Type 0) ⦃n : Numbers A⦄ : Type 1 where
  pub IsOrdinary : A → Type 0
  pub whole-IsOrdinary : (k : ℕ) → k ≤ 10 → IsOrdinary (whole k)
  pub neg-IsOrdinary : (x : A) → IsOrdinary x → IsOrdinary (neg x)
  pub add_comm : (x y : A) → x + y ≡ y + x
  pub zero_add : (x : A) → whole 0 + x ≡ x
  pub sub_zero : (x : A) → x - whole 0 ≡ x
  pub zero_sub : (x : A) → whole 0 - x ≡ neg x
  pub mul_one : (x : A) → x * whole 1 ≡ x
  pub one_mul : (x : A) → whole 1 * x ≡ x
  pub neg_mul_neg : (x y : A) → neg x * neg y ≡ x * y
  pub neg_div : (x y : A) → neg x / y ≡ neg (x / y)
  pub sub_self : (x : A) → IsOrdinary x → x - x ≡ whole 0
  pub neg_add : (x : A) → IsOrdinary x → neg x + x ≡ whole 0
  pub mul_zero : (x : A) → IsOrdinary x → x * whole 0 ≡ whole 0
  pub zero_mul : (x : A) → IsOrdinary x → whole 0 * x ≡ whole 0
  pub half_zero : (x : A) → IsOrdinary x → x / whole 2 * whole 0 ≡ whole 0
  pub half_two : (x : A) → IsOrdinary x → x / whole 2 * whole 2 ≡ x
  pub zero_div : (x : A) → IsOrdinary x → x ≢ whole 0 → whole 0 / x ≡ whole 0
  pub zero_div_half : (x : A) → IsOrdinary x → x ≢ whole 0 → whole 0 / (x / whole 2) ≡ whole 0
  pub div_self : (x : A) → IsOrdinary x → x ≢ whole 0 → x / x ≡ whole 1
  pub div_half : (x : A) → IsOrdinary x → x ≢ whole 0 → x / (x / whole 2) ≡ whole 2
  pub equal_self : (x : A) → IsOrdinary x → (x == x) ≡ true
  pub equal_ne : (x y : A) → IsOrdinary x → IsOrdinary y → x ≢ y → (x == y) ≡ false
  pub two_sub_one : n.minus (whole 2) (whole 1) ≡ whole 1
  pub one_sub_two : n.minus (whole 1) (whole 2) ≡ neg (whole 1)
  pub neg_one_sub_one : n.minus (neg (whole 1)) (whole 1) ≡ neg (whole 2)
  pub one_add_one : n.plus (whole 1) (whole 1) ≡ whole 2
  pub zero_lt_one : n.less (whole 0) (whole 1) ≡ true
  pub two_lt_one : n.less (whole 2) (whole 1) ≡ false
  pub sqrt_zero : n.sqrt (whole 0) ≡ whole 0
  pub sqrt_one : n.sqrt (whole 1) ≡ whole 1
  pub pow_zero : (x : A) → n.pow x (whole 0) ≡ whole 1
