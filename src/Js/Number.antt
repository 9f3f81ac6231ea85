-- ===== src/Js/Number.antt =====
-- The numbers of the language, which are in binary floating point: the operations and the functions
-- of `Math` that the scripts call.
pub mod Laws
use sbt_example.Common.{ℕ, Bool}

-- `decimal digits places` is what a literal stands for, with its last digits behind the point.
pub record Numbers (A : Type 0) : Type 0 where
  pub decimal : ℕ → ℕ → A
  pub plus : A → A → A
  pub minus : A → A → A
  pub times : A → A → A
  pub divided : A → A → A
  pub negative : A → A
  pub less : A → A → Bool
  pub equal : A → A → Bool
  pub sqrt : A → A
  pub pow : A → A → A
  pub sin : A → A
  pub cos : A → A
  pub asin : A → A
  pub abs : A → A
  pub pi : A

module _ {A : Type 0} ⦃n : Numbers A⦄ where
  infixl 65 ◌+◌ ◌-◌
  infixl 70 ◌*◌ ◌/◌
  infix 50 ◌<◌ ◌==◌
  abbrev pub ◌+◌ : A → A → A
  ◌+◌ = n.plus

  abbrev pub ◌-◌ : A → A → A
  ◌-◌ = n.minus

  abbrev pub ◌*◌ : A → A → A
  ◌*◌ = n.times

  abbrev pub ◌/◌ : A → A → A
  ◌/◌ = n.divided

  abbrev pub ◌<◌ : A → A → Bool
  ◌<◌ = n.less

  abbrev pub ◌==◌ : A → A → Bool
  ◌==◌ = n.equal

  -- `-x`.
  abbrev pub neg : A → A
  neg = n.negative

  -- A literal without a point, and with one.
  abbrev pub whole : ℕ → A
  whole k = n.decimal k 0

  abbrev pub decimal : ℕ → ℕ → A
  decimal = n.decimal
