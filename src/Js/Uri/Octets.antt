-- ===== src/Js/Uri/Octets.antt =====
-- Octets written as `%XX`.
use sbt_example.Common.{
  ℕ, ◌+◌, ◌-◌, ◌*◌, ◌/◌, ◌%◌, ◌<◌, ◌≡◌, Str, ◌&&◌, Option, none, some, [], ◌∷◌, ◌++◌, ltb, leb,
  ◌==◌, if◌then◌else◌, Outcome, ok, throw, uri_error, arith,
}

-- Upper-case, as the coder writes it.
unfoldable pub hex_char : ℕ → ℕ
hex_char n = if ltb n 10 then b'0' + n else b'A' + (n - 10)

-- Either case is read.
unfoldable pub hex_value : ℕ → Option ℕ
hex_value c =
    if leb b'0' c && leb c b'9'
    then some (c - b'0')
    else if leb b'A' c && leb c b'F'
    then some (c - b'A' + 10)
    else if leb b'a' c && leb c b'f'
    then some (c - b'a' + 10)
    else none

unfoldable pub octet : ℕ → Str
octet b = b'%' ∷ hex_char (b / 16) ∷ hex_char (b % 16) ∷ []

unfoldable pub read_digits : Option ℕ → Option ℕ → Str → Outcome (ℕ × Str)
read_digits (some x) (some y) s = ok (x * 16 + y, s)
read_digits _ _ s = throw uri_error

unfoldable pub read_octet : Str → Outcome (ℕ × Str)
unfolding read_digits
read_octet (p ∷ h ∷ l ∷ s) =
    if p == b'%' then read_digits (hex_value h) (hex_value l) s else throw uri_error
read_octet _ = throw uri_error

pub hex_value-hex_char : (n : ℕ) → n < 16 → hex_value (hex_char n) ≡ some n
unfolding hex_value hex_char
hex_value-hex_char n h = ground arith

pub read_octet-octet : (b : ℕ) (s : Str) → b < 256 → read_octet (octet b ++ s) ≡ ok (b, s)
unfolding read_octet octet
read_octet-octet b s h =
    ground
      (arith, hex_value-hex_char (b / 16) (omega arith), hex_value-hex_char (b % 16) (omega arith))
