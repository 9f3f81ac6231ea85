-- ===== src/Js/Decimal.antt =====
-- Numbers as the texts that `+` makes of them, and read back by `parseInt`.
use sbt_example.Common.{
  ℕ, zero, suc, ◌+◌, ◌-◌, ◌*◌, ◌/◌, ◌%◌, ◌<◌, ◌≤◌, ◌≡◌, refl, Str, [], ◌∷◌, ◌++◌, arith, ltb,
  if◌then◌else◌, length, length-append, All, All-append, Bool-cases, inl, inr, ltb→lt,
}

-- The digits by the rounds that are left.
unfoldable pub digits_from : ℕ → ℕ → Str
digits_from zero n = []
digits_from (suc f) n =
    let front = digits_from f (n / 10) in
    if ltb n 10 then (b'0' + n) ∷ [] else front ++ (b'0' + n % 10) ∷ []

-- A number has no more digits than its value plus one.
unfoldable pub decimal : ℕ → Str
decimal n = digits_from (suc n) n

-- The number that digits stand for.
unfoldable pub value_from : ℕ → Str → ℕ
value_from acc [] = acc
value_from acc (c ∷ s) = value_from (acc * 10 + (c - b'0')) s

value_from-append :
    (acc : ℕ) (s t : Str) → value_from acc (s ++ t) ≡ value_from (value_from acc s) t
unfolding value_from
value_from-append acc [] t = refl
value_from-append acc (c ∷ s) t = value_from-append (acc * 10 + (c - b'0')) s t

value_from-digits_from : (f n : ℕ) → n < f → value_from 0 (digits_from f n) ≡ n
unfolding value_from digits_from
value_from-digits_from zero n h = absurd (omega arith)
value_from-digits_from (suc f) n h = ground (
  arith,
  value_from-digits_from f (n / 10),
  value_from-append 0 (digits_from f (n / 10)) ((b'0' + n % 10) ∷ []),
)

-- The text of a number determines it.
pub value_from-decimal : (n : ℕ) → value_from 0 (decimal n) ≡ n
unfolding decimal
value_from-decimal n = value_from-digits_from (suc n) n (omega arith)

abbrev pub IsDigit : ℕ → Type 0
IsDigit c = (b'0' ≤ c) × (c ≤ b'9')

digits_from-IsDigit : (f n : ℕ) → All IsDigit (digits_from f n)
unfolding digits_from
digits_from-IsDigit zero n = tt
digits_from-IsDigit (suc f) n = elim (Bool-cases (ltb n 10)) [
  | inl e ↦ let small = ltb→lt n 10 e in rw e ((omega arith, omega arith), tt)
  | inr e ↦ rw e (
      All-append IsDigit (digits_from f (n / 10)) ((b'0' + n % 10) ∷ [])
        (digits_from-IsDigit f (n / 10)) ((omega arith, omega arith), tt))
]

pub decimal-IsDigit : (n : ℕ) → All IsDigit (decimal n)
unfolding decimal
decimal-IsDigit n = digits_from-IsDigit (suc n) n

-- One more digit is enough for numbers up to ten times as large.
length-digits_from-suc :
    (k bound f n : ℕ)
    → ((m : ℕ) → m < bound → length (digits_from f m) ≤ k)
    → n < bound * 10
    → length (digits_from (suc f) n) ≤ suc k
unfolding digits_from
length-digits_from-suc k bound f n shorter h = ground (
  arith,
  shorter (n / 10) (omega arith),
  length-append (digits_from f (n / 10)) ((b'0' + n % 10) ∷ []),
)

length-digits_from-one : (f n : ℕ) → n < 10 → length (digits_from f n) ≤ 1
unfolding digits_from
length-digits_from-one zero n h = omega arith
length-digits_from-one (suc f) n h = ground arith

length-digits_from-two : (f n : ℕ) → n < 100 → length (digits_from f n) ≤ 2
unfolding digits_from
length-digits_from-two zero n h = omega arith
length-digits_from-two (suc f) n h =
    length-digits_from-suc 1 10 f n (length-digits_from-one f) (omega arith)

pub length-decimal : (n : ℕ) → n < 1000 → length (decimal n) ≤ 3
unfolding decimal
length-decimal n h = length-digits_from-suc 2 100 n n (length-digits_from-two n) (omega arith)

pub length-decimal_positive : (n : ℕ) → 0 < length (decimal n)
unfolding decimal digits_from
length-decimal_positive n =
    ground (arith, length-append (digits_from n (n / 10)) ((b'0' + n % 10) ∷ []))
