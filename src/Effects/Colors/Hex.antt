-- ===== src/Effects/Colors/Hex.antt =====
-- `getRGB` (effects.core.js) on colours written with hexadecimal digits.
use sbt_example.Common.{
  ℕ, ◌/◌, ◌%◌, ◌<◌, ◌≡◌, refl, ◌∙◌, Str, false, Option, none, some, [], ◌∷◌, ◌++◌, arith, All,
  All-append, ◌==◌,
}
use sbt_example.Js.Uri.Octets.{hex_char, hex_value-hex_char}
use sbt_example.Effects.Pattern.{
  after, short_number, percentage, rgb_of, hex_at, hex_pair, hex_long, exec,
}
use sbt_example.Effects.Colors.{text, rgb, text_rgb, other_text, get_rgb}
use sbt_example.Effects.Colors.RoundTrip.{exec-head}

-- A part of a colour with two digits.
abbrev pub pair : ℕ → Str
pair n = hex_char (n / 16) ∷ hex_char (n % 16) ∷ []

abbrev pub hex_text : ℕ → ℕ → ℕ → Str
hex_text r g b = b'#' ∷ pair r ++ pair g ++ pair b

-- A unit that is not the letter r.
abbrev pub NotR : ℕ → Type 0
NotR c = (b'r' == c) ≡ false

-- In a text without the letter r no colour of the form rgb(…) is found.
exec-rgb_of :
    (number : Str → Option (Str × Str)) (s : Str) → All NotR s → exec (rgb_of number) s ≡ none
unfolding exec rgb_of after
exec-rgb_of number [] h = refl
exec-rgb_of number (c ∷ s) (p, h) = ground (arith, exec-rgb_of number s h)

hex_char_other : (n : ℕ) → n < 16 → (b'r' == hex_char n) ≡ false
unfolding hex_char
hex_char_other n h = ground arith

pair_other : (n : ℕ) → n < 256 → All NotR (pair n)
pair_other n h =
    (hex_char_other (n / 16) (omega arith), (hex_char_other (n % 16) (omega arith), tt))

hex_pair-pair : (n : ℕ) (s : Str) → n < 256 → hex_pair (pair n ++ s) ≡ some (n, s)
unfolding hex_pair hex_at
hex_pair-pair n s h =
    ground
      (arith, hex_value-hex_char (n / 16) (omega arith), hex_value-hex_char (n % 16) (omega arith))

hex_long-hex_text :
    (r g b : ℕ) → r < 256 → g < 256 → b < 256 → hex_long (hex_text r g b) ≡ some (r, g, b)
unfolding hex_long after
hex_long-hex_text r g b hr hg hb =
    rw (hex_pair-pair r (pair g ++ pair b) hr, hex_pair-pair g (pair b) hg, hex_pair-pair b [] hb)
      refl

module _ {R : Type 0} (int : ℕ → R) (percent : Str → R) (trim : Str → Str) (fold : ℕ → ℕ) where
  text_rgb-other :
      (s : Str) → All NotR s → text_rgb int percent trim fold s ≡ other_text int percent trim fold s
  unfolding text_rgb
  text_rgb-other s h = rw (exec-rgb_of short_number s h, exec-rgb_of percentage s h, text_rgb) refl

  other_text-hex :
      (s : Str) (r g b : ℕ)
      → exec hex_long s ≡ some (r, g, b)
      → other_text int percent trim fold s ≡ rgb (int r) (int g) (int b)
  unfolding other_text
  other_text-hex s r g b e = rw (e, other_text) refl

  -- `getRGB` reads a colour written as "#rrggbb", with two hexadecimal digits for each part below
  -- 256.
  pub get_rgb-hex_text :
      (r g b : ℕ)
      → r < 256
      → g < 256
      → b < 256
      → get_rgb int percent trim fold (text (hex_text r g b)) ≡ rgb (int r) (int g) (int b)
  unfolding get_rgb
  get_rgb-hex_text r g b hr hg hb =
      let letters : All NotR (hex_text r g b) = (
        refl,
        All-append NotR (pair r) (pair g ++ pair b) (pair_other r hr)
            (All-append NotR (pair g) (pair b) (pair_other g hg) (pair_other b hb)),
      ) in
      text_rgb-other (hex_text r g b) letters
      ∙ other_text-hex (hex_text r g b) r g b
          (exec-head hex_long (hex_text r g b) (r, g, b) (hex_long-hex_text r g b hr hg hb))
