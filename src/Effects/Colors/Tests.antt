-- ===== src/Effects/Colors/Tests.antt =====
-- Runs of the colours (effects.core.js), with natural numbers for the language's numbers.
use sbt_example.Common.{ℕ, ◌+◌, ltb, if◌then◌else◌, ◌≡◌, refl, Str, units, same, ok, length, ◌≤◌}
use sbt_example.Js.Decimal.{value_from}
use sbt_example.Js.Text.{is_space}
use sbt_example.Js.Uri.Octets.{hex_value}
use sbt_example.Doctools.Query.{inherits, listed}
use sbt_example.Effects.Pattern.{
  after, skip_spaces, is_digit, digits, some_digits, short_number, with_fraction, percentage,
  rgb_of, hex_at, hex_short, hex_pair, hex_long, exec,
}
use sbt_example.Effects.Colors.{
  ℤ, pos, negsuc, Source, text, Color, rgb, undefined, inherited, lookup_color, of_shade,
  color_named, other_text, text_rgb, get_rgb, clamp, step_text,
}
use sbt_example.Effects.Colors.RoundTrip.{get_rgb-step_text}

-- Percentages are measured by the length of their text, texts are trimmed already, and units are
-- their own lower case.
abbrev read : Source ℕ → Color ℕ
read = get_rgb (λ n. n) length (λ s. s) (λ c. c)

reads_name : read (text (units "darkgrey")) ≡ rgb 169 169 169
unfolding get_rgb text_rgb other_text color_named lookup_color of_shade exec rgb_of after hex_long
    hex_short same
reads_name = refl

reads_spaces : read (text (units "x rgb( 1 ,20, 300 )")) ≡ rgb 1 20 300
unfolding get_rgb text_rgb exec rgb_of after skip_spaces is_space short_number digits some_digits
    is_digit value_from
reads_spaces = refl

reads_short : read (text (units "#fC8")) ≡ rgb 255 204 136
unfolding get_rgb text_rgb other_text exec rgb_of after hex_long hex_short hex_pair hex_at hex_value
reads_short = refl

reads_percentage : read (text (units "rgb(10%,2.5%,3.%)")) ≡ undefined
unfolding get_rgb text_rgb other_text color_named lookup_color exec rgb_of after skip_spaces
    is_space short_number digits some_digits is_digit percentage with_fraction hex_long hex_short
    same inherits listed
reads_percentage = refl

reads_inherited : read (text (units "constructor")) ≡ inherited (units "constructor")
unfolding get_rgb text_rgb other_text color_named lookup_color exec rgb_of after hex_long hex_short
    same inherits listed
reads_inherited = refl

-- Parts in the middle of a flash, one of them below 0 and one above 255.
abbrev halfway : ℕ → ℕ → ℤ
halfway a b = if◌then◌else◌ (ltb a b) (pos (a + b)) (negsuc b)

get_rgb-step_text_example :
    (s : Str) × (step_text halfway (rgb 255 204 133) (rgb 242 242 0) ≡ ok s)
    × (read (text s) ≡ rgb (clamp (negsuc 242)) (clamp (pos 446)) (clamp (negsuc 0)))
    × (clamp (negsuc 242) ≤ 255)
    × (clamp (pos 446) ≤ 255)
    × (clamp (negsuc 0) ≤ 255)
get_rgb-step_text_example =
    get_rgb-step_text (λ n. n) length (λ s. s) (λ c. c) halfway 255 204 133 242 242 0
