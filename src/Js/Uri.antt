-- ===== src/Js/Uri.antt =====
-- `encodeURIComponent` and `decodeURIComponent`, which doctools.js calls.
pub mod Octets
pub mod RoundTrip
pub mod Steps
pub mod Safe
pub mod Laws
pub mod Total
use sbt_example.Common.{
  ℕ, suc, ◌+◌, ◌-◌, ◌*◌, ◌/◌, ◌%◌, Str, Bool, true, false, ◌&&◌, ◌||◌, Option, none, some, [], ◌∷◌,
  ◌++◌, ltb, leb, ◌==◌, if◌then◌else◌, length, Outcome, ok, throw, uri_error, ◌>>=◌,
}
use sbt_example.Js.Loop.{Coder, convert}
use Octets.{octet, read_octet}

-- Letters, digits and the marks that are never escaped.
unfoldable pub is_unreserved : ℕ → Bool
is_unreserved c =
    (leb b'a' c && leb c b'z')
    || (leb b'A' c && leb c b'Z')
    || (leb b'0' c && leb c b'9')
    || c == b'-'
    || c == b'_'
    || c == b'.'
    || c == b'!'
    || c == b'~'
    || c == b'*'
    || c == b'\''
    || c == b'('
    || c == b')'

abbrev pub is_high : ℕ → Bool
is_high c = leb 0xD800 c && leb c 0xDBFF

abbrev pub is_low : ℕ → Bool
is_low c = leb 0xDC00 c && leb c 0xDFFF

-- The escaped UTF-8 octets of a code point.
unfoldable pub escaped : ℕ → Str
escaped v =
    if ltb v 0x80
    then octet v
    else if ltb v 0x800
    then octet (0xC0 + v / 64) ++ octet (0x80 + v % 64)
    else if ltb v 0x10000
    then octet (0xE0 + v / 4096) ++ (octet (0x80 + v / 64 % 64) ++ octet (0x80 + v % 64))
    else octet (0xF0 + v / 262144)
      ++ (octet (0x80 + v / 4096 % 64) ++ (octet (0x80 + v / 64 % 64) ++ octet (0x80 + v % 64)))

-- A high surrogate wants a low one behind it.
unfoldable pub encode_pair : Coder
encode_pair c [] = throw uri_error
encode_pair c (d ∷ s) =
    if is_low d
    then ok (escaped (0x10000 + (c - 0xD800) * 1024 + (d - 0xDC00)), s)
    else throw uri_error

unfoldable pub encode_one : Coder
encode_one c s =
    if is_unreserved c
    then ok (c ∷ [], s)
    else if is_low c
    then throw uri_error
    else if is_high c
    then encode_pair c s
    else ok (escaped c, s)

unfoldable pub encode_uri_component : Str → Outcome Str
encode_uri_component s = convert encode_one (length s) s

abbrev pub is_continuation : ℕ → Bool
is_continuation b = leb 0x80 b && ltb b 0xC0

-- `%XX` for an octet that goes on a character; gives its six bits.
unfoldable pub read_more : Str → Outcome (ℕ × Str)
read_more s = do
  (b, rest) ← read_octet s
  if is_continuation b then ok (b % 64, rest) else throw uri_error

-- The code point of two octets, if it does not fit in one.
unfoldable pub decode_two : ℕ → Str → Outcome (Str × Str)
decode_two b s = do
  (x, r) ← read_more s
  let v = b % 32 * 64 + x
  if ltb v 0x80 then throw uri_error else ok (v ∷ [], r)

-- Neither too long a form nor a surrogate.
unfoldable pub close_three : ℕ → Str → Outcome (Str × Str)
close_three v s = if ltb v 0x800 || is_high v || is_low v then throw uri_error else ok (v ∷ [], s)

unfoldable pub decode_three : ℕ → Str → Outcome (Str × Str)
decode_three b s = do
  (x, r) ← read_more s
  (y, r') ← read_more r
  close_three (b % 16 * 4096 + x * 64 + y) r'

-- A code point above the units becomes a surrogate pair.
unfoldable pub close_four : ℕ → Str → Outcome (Str × Str)
close_four v s =
    if ltb v 0x10000 || ltb 0x10FFFF v
    then throw uri_error
    else ok ((0xD800 + (v - 0x10000) / 1024) ∷ (0xDC00 + (v - 0x10000) % 1024) ∷ [], s)

unfoldable pub decode_four : ℕ → Str → Outcome (Str × Str)
decode_four b s = do
  (x, r) ← read_more s
  (y, r') ← read_more r
  (z, r'') ← read_more r'
  close_four (b % 8 * 262144 + x * 4096 + y * 64 + z) r''

-- By the high bits of the first octet.
unfoldable pub decode_octet : ℕ → Str → Outcome (Str × Str)
decode_octet b s =
    if ltb b 0x80
    then ok (b ∷ [], s)
    else if ltb b 0xC0
    then throw uri_error
    else if ltb b 0xE0
    then decode_two b s
    else if ltb b 0xF0
    then decode_three b s
    else if ltb b 0xF8
    then decode_four b s
    else throw uri_error

unfoldable pub decode_one : Coder
decode_one c s =
    if c == b'%' then (do (b, rest) ← read_octet (c ∷ s); decode_octet b rest) else ok (c ∷ [], s)

unfoldable pub decode_uri_component : Str → Outcome Str
decode_uri_component s = convert decode_one (length s) s
