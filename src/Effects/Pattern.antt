-- ===== src/Effects/Pattern.antt =====
-- effects.core.js: the regular expressions that `getRGB` tries. What stands behind a repetition in
-- them never starts with a unit that the repetition takes, so that the longest match is the only
-- one.
use sbt_example.Common.{
  ℕ, zero, suc, ◌+◌, ◌*◌, Str, units, Bool, ◌&&◌, Option, none, some, [], ◌∷◌, ◌++◌, ◌==◌, leb,
  length, if◌then◌else◌,
}
use sbt_example.Js.Text.{is_space}
use sbt_example.Js.Uri.Octets.{hex_value}

infixl 5 ◌>>=◌
abbrev ◌>>=◌ {ℓ κ} : {A : Type ℓ} {B : Type κ} → Option A → (A → Option B) → Option B
none >>= f = none
some a >>= f = f a

-- The text behind a literal.
unfoldable pub after : Str → Str → Option Str
after [] s = some s
after (p ∷ ps) [] = none
after (p ∷ ps) (c ∷ s) = if p == c then after ps s else none

-- `\s*`.
unfoldable pub skip_spaces : Str → Str
skip_spaces [] = []
skip_spaces (c ∷ s) = if is_space c then skip_spaces s else c ∷ s

unfoldable pub is_digit : ℕ → Bool
is_digit c = leb b'0' c && leb c b'9'

-- The digits at the head of a text, at most `n` of them, and what is behind them.
unfoldable pub digits : ℕ → Str → Str × Str
digits zero s = ([], s)
digits (suc n) [] = ([], [])
digits (suc n) (c ∷ s) =
    let (d, rest) = digits n s in if is_digit c then (c ∷ d, rest) else ([], c ∷ s)

unfoldable pub some_digits : Str × Str → Option (Str × Str)
some_digits ([], s) = none
some_digits (c ∷ d, s) = some (c ∷ d, s)

-- `[0-9]{1,3}`.
unfoldable pub short_number : Str → Option (Str × Str)
short_number s = some_digits (digits 3 s)

-- `(?:\.[0-9]+)?` behind the digits `d`.
unfoldable pub with_fraction : Str → Str → Str × Str
with_fraction d (c ∷ s) =
    if c == b'.'
    then elim (some_digits (digits (length s) s)) [
      | none ↦ (d, c ∷ s)
      | some (e, rest) ↦ (d ++ (b'.' ∷ e), rest)
    ]
    else (d, c ∷ s)
with_fraction d [] = (d, [])

-- `([0-9]+(?:\.[0-9]+)?)\%`.
unfoldable pub percentage : Str → Option (Str × Str)
percentage s = do
  (d, behind) ← some_digits (digits (length s) s)
  let (number, rest) = with_fraction d behind
  last ← after (units "%") rest
  some (number, last)

-- `rgb\(\s*N\s*,\s*N\s*,\s*N\s*\)` at the head of a text, for a pattern N.
unfoldable pub rgb_of : (Str → Option (Str × Str)) → Str → Option (Str × Str × Str)
rgb_of number s = do
  s₁ ← after (units "rgb(") s
  (r, s₂) ← number (skip_spaces s₁)
  s₃ ← after (units ",") (skip_spaces s₂)
  (g, s₄) ← number (skip_spaces s₃)
  s₅ ← after (units ",") (skip_spaces s₄)
  (b, s₆) ← number (skip_spaces s₅)
  _ ← after (units ")") (skip_spaces s₆)
  some (r, g, b)

-- `[a-fA-F0-9]`, with the value of the digit.
unfoldable pub hex_at : Str → Option (ℕ × Str)
hex_at [] = none
hex_at (c ∷ s) = do x ← hex_value c; some (x, s)

-- `#([a-fA-F0-9])([a-fA-F0-9])([a-fA-F0-9])`.
unfoldable pub hex_short : Str → Option (ℕ × ℕ × ℕ)
hex_short s = do
  s₁ ← after (units "#") s
  (r, s₂) ← hex_at s₁
  (g, s₃) ← hex_at s₂
  (b, _) ← hex_at s₃
  some (r * 16 + r, g * 16 + g, b * 16 + b)

-- `[a-fA-F0-9]{2}`, with the value of both digits.
unfoldable pub hex_pair : Str → Option (ℕ × Str)
hex_pair s = do (x, s₁) ← hex_at s; (y, s₂) ← hex_at s₁; some (x * 16 + y, s₂)

-- `#([a-fA-F0-9]{2})([a-fA-F0-9]{2})([a-fA-F0-9]{2})`.
unfoldable pub hex_long : Str → Option (ℕ × ℕ × ℕ)
hex_long s = do
  s₁ ← after (units "#") s
  (r, s₂) ← hex_pair s₁
  (g, s₃) ← hex_pair s₂
  (b, _) ← hex_pair s₃
  some (r, g, b)

-- `exec`: the first place in the text where the pattern fits.
unfoldable pub exec {ℓ} : {A : Type ℓ} → (Str → Option A) → Str → Option A
exec pattern [] = pattern []
exec pattern (c ∷ s) =
    let later = exec pattern s in elim (pattern (c ∷ s)) [ some a ↦ some a | none ↦ later ]
