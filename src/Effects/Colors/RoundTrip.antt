-- ===== src/Effects/Colors/RoundTrip.antt =====
-- `getRGB` (effects.core.js) on the texts of colours.
use sbt_example.Common.{
  ℕ, zero, suc, ◌<◌, ◌≤◌, ◌≡◌, refl, ap, ◌∙◌, Str, false, Option, some, [], ◌∷◌, ◌++◌, arith, All,
  length, ok,
}
use sbt_example.Js.Decimal.{
  decimal, IsDigit, decimal-IsDigit, length-decimal, length-decimal_positive, value_from-decimal,
}
use sbt_example.Js.Text.{is_space}
use sbt_example.Effects.Pattern.{
  after, skip_spaces, is_digit, digits, some_digits, short_number, rgb_of, exec,
}
use sbt_example.Effects.Colors.{ℤ, text, rgb, text_rgb, get_rgb, rgb_text, clamp, step_text}

digits-append :
    (n : ℕ) (d : Str) (c : ℕ) (s : Str)
    → All IsDigit d
    → length d ≤ n
    → is_digit c ≡ false
    → digits n (d ++ c ∷ s) ≡ (d, c ∷ s)
unfolding digits is_digit
digits-append zero [] c s h k e = refl
digits-append zero (x ∷ d) c s h k e = absurd (omega arith)
digits-append (suc n) [] c s h k e = ground arith
digits-append (suc n) (x ∷ d) c s (p, h) k e =
    ground (arith, digits-append n d c s h (omega arith) e)

some_digits-digits : (d : Str) (s : Str) → 0 < length d → some_digits (d, s) ≡ some (d, s)
unfolding some_digits
some_digits-digits [] s h = absurd (omega arith)
some_digits-digits (c ∷ d) s h = refl

-- A number behind which another unit stands is read whole.
short_number-decimal :
    (n c : ℕ) (s : Str)
    → n < 1000
    → is_digit c ≡ false
    → short_number (decimal n ++ c ∷ s) ≡ some (decimal n, c ∷ s)
unfolding short_number
short_number-decimal n c s h e =
    ap some_digits (digits-append 3 (decimal n) c s (decimal-IsDigit n) (length-decimal n h) e)
    ∙ some_digits-digits (decimal n) (c ∷ s) (length-decimal_positive n)

skip_spaces-digits : (d s : Str) → All IsDigit d → 0 < length d → skip_spaces (d ++ s) ≡ d ++ s
unfolding skip_spaces is_space
skip_spaces-digits [] s h k = absurd (omega arith)
skip_spaces-digits (c ∷ d) s (p, h) k = ground arith

skip_spaces-decimal : (n : ℕ) (s : Str) → skip_spaces (decimal n ++ s) ≡ decimal n ++ s
skip_spaces-decimal n s =
    skip_spaces-digits (decimal n) s (decimal-IsDigit n) (length-decimal_positive n)

rgb_of-rgb_text :
    (r g b : ℕ)
    → r < 1000
    → g < 1000
    → b < 1000
    → rgb_of short_number (rgb_text r g b) ≡ some (decimal r, decimal g, decimal b)
unfolding rgb_of rgb_text after skip_spaces is_space is_digit
rgb_of-rgb_text r g b hr hg hb =
    let last = b')' ∷ [] in
    let green = decimal g ++ b',' ∷ (decimal b ++ last) in
    rw
      (
        skip_spaces-decimal r (b',' ∷ green),
        short_number-decimal r b',' green hr refl,
        skip_spaces-decimal g (b',' ∷ (decimal b ++ last)),
        short_number-decimal g b',' (decimal b ++ last) hg refl,
        skip_spaces-decimal b last,
        short_number-decimal b b')' [] hb refl,
      )
      refl

-- Where a pattern fits at the head of a text, it is found there.
pub exec-head :
    {A : Type 0} (pattern : Str → Option A) (s : Str) (a : A)
    → pattern s ≡ some a
    → exec pattern s ≡ some a
unfolding exec
exec-head pattern [] a e = e
exec-head pattern (c ∷ s) a e = rw (e, exec) refl

module _ {R : Type 0} (int : ℕ → R) (percent : Str → R) (trim : Str → Str) (fold : ℕ → ℕ) where
  -- `getRGB` reads back a colour that is written as "rgb(r,g,b)" with parts below 1000.
  pub get_rgb-rgb_text :
      (r g b : ℕ)
      → r < 1000
      → g < 1000
      → b < 1000
      → get_rgb int percent trim fold (text (rgb_text r g b)) ≡ rgb (int r) (int g) (int b)
  unfolding get_rgb text_rgb
  get_rgb-rgb_text r g b hr hg hb =
      rw
        (
          exec-head (rgb_of short_number) (rgb_text r g b) (decimal r, decimal g, decimal b)
              (rgb_of-rgb_text r g b hr hg hb),
          value_from-decimal r,
          value_from-decimal g,
          value_from-decimal b,
          text_rgb,
        )
        refl

  clamp_le : (x : ℤ) → clamp x ≤ 255
  unfolding clamp
  clamp_le (ℤ.pos n) = ground arith
  clamp_le (ℤ.negsuc n) = omega arith

  -- A step between two colours sets a text that `getRGB` reads back as the parts that the step
  -- computes, brought between 0 and 255.
  pub get_rgb-step_text :
      (shade : R → R → ℤ) (r g b r' g' b' : R)
      → (s : Str) × (step_text shade (rgb r g b) (rgb r' g' b') ≡ ok s)
        × (get_rgb int percent trim fold (text s)
            ≡ rgb (int (clamp (shade r r'))) (int (clamp (shade g g'))) (int (clamp (shade b b'))))
        × (clamp (shade r r') ≤ 255)
        × (clamp (shade g g') ≤ 255)
        × (clamp (shade b b') ≤ 255)
  unfolding step_text
  get_rgb-step_text shade r g b r' g' b' =
      let red = clamp_le (shade r r') in
      let green = clamp_le (shade g g') in
      let blue = clamp_le (shade b b') in
      (
        rgb_text (clamp (shade r r')) (clamp (shade g g')) (clamp (shade b b')),
        refl,
        get_rgb-rgb_text (clamp (shade r r')) (clamp (shade g g')) (clamp (shade b b'))
            (omega arith) (omega arith) (omega arith),
        red,
        green,
        blue,
      )
