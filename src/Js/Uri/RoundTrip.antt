-- ===== src/Js/Uri/RoundTrip.antt =====
-- The escaped octets of a code point, read by `decodeURIComponent`.
use sbt_example.Common.{
  ℕ, ◌+◌, ◌-◌, ◌*◌, ◌/◌, ◌%◌, ◌<◌, ◌≤◌, ◌≡◌, Str, false, [], ◌∷◌, ◌++◌, arith, ok, lt→ltb, nltb,
  drop, ◌∙◌,
}
use sbt_example.Js.Uri.Octets.{octet, hex_char, read_octet-octet}
use sbt_example.Js.Uri.{
  is_high, is_low, escaped, read_more, decode_two, close_three, decode_three, close_four,
  decode_four, decode_octet, decode_one,
}

read_more-octet : (x : ℕ) (s : Str) → x < 64 → read_more (octet (0x80 + x) ++ s) ≡ ok (x, s)
unfolding read_more
read_more-octet x s h = ground (arith, read_octet-octet (0x80 + x) s (omega arith))

decode_two_lem :
    (v : ℕ) (s : Str)
    → 0x80 ≤ v
    → v < 0x800
    → decode_two (0xC0 + v / 64) (octet (0x80 + v % 64) ++ s) ≡ ok (v ∷ [], s)
unfolding decode_two
decode_two_lem v s h k = ground (arith, read_more-octet (v % 64) s (omega arith))

close_three_lem :
    (v : ℕ) (s : Str)
    → 0x800 ≤ v
    → is_high v ≡ false
    → is_low v ≡ false
    → close_three v s ≡ ok (v ∷ [], s)
unfolding close_three
close_three_lem v s h hi lo = rw (hi, lo) (ground arith)

decode_three_lem :
    (v : ℕ) (s : Str)
    → 0x800 ≤ v
    → v < 0x10000
    → is_high v ≡ false
    → is_low v ≡ false
    → decode_three (0xE0 + v / 4096) (octet (0x80 + v / 64 % 64) ++ (octet (0x80 + v % 64) ++ s))
      ≡ ok (v ∷ [], s)
unfolding decode_three
decode_three_lem v s h k hi lo =
    let value : (0xE0 + v / 4096) % 16 * 4096 + v / 64 % 64 * 64 + v % 64 ≡ v = omega arith in
    rw
      (
        read_more-octet (v / 64 % 64) _ (omega arith),
        read_more-octet (v % 64) s (omega arith),
        value,
      )
      (close_three_lem v s h hi lo)

-- A pair of surrogates and the code point that it stands for.
pub close_four_lem :
    (c d : ℕ) (s : Str)
    → 0xD800 ≤ c
    → c ≤ 0xDBFF
    → 0xDC00 ≤ d
    → d ≤ 0xDFFF
    → close_four (0x10000 + (c - 0xD800) * 1024 + (d - 0xDC00)) s ≡ ok (c ∷ d ∷ [], s)
unfolding close_four
close_four_lem c d s h1 h2 h3 h4 = ground arith

decode_four_lem :
    (v : ℕ) (s : Str)
    → v < 0x110000
    → decode_four (0xF0 + v / 262144) (
        octet (0x80 + v / 4096 % 64)
        ++ (octet (0x80 + v / 64 % 64) ++ (octet (0x80 + v % 64) ++ s)))
      ≡ close_four v s
unfolding decode_four
decode_four_lem v s h =
    let value : (0xF0 + v / 262144) % 8 * 262144 + v / 4096 % 64 * 4096 + v / 64 % 64 * 64 + v % 64
        ≡ v =
      omega arith in
    rw (
      read_more-octet (v / 4096 % 64) _ (omega arith),
      read_more-octet (v / 64 % 64) _ (omega arith),
      read_more-octet (v % 64) s (omega arith),
      value,
    )

-- Reading the first octet of a character.
decode_one-octet :
    (b : ℕ) (s : Str)
    → b < 256
    → decode_one b'%' (hex_char (b / 16) ∷ hex_char (b % 16) ∷ s) ≡ decode_octet b s
unfolding decode_one octet
decode_one-octet b s h = rw (read_octet-octet b s h)

decode_octet_two :
    (v : ℕ) (s : Str) → v < 0x800 → decode_octet (0xC0 + v / 64) s ≡ decode_two (0xC0 + v / 64) s
unfolding decode_octet
decode_octet_two v s h = ground arith

decode_octet_three :
    (v : ℕ) (s : Str)
    → v < 0x10000
    → decode_octet (0xE0 + v / 4096) s ≡ decode_three (0xE0 + v / 4096) s
unfolding decode_octet
decode_octet_three v s h = ground arith

decode_octet_four :
    (v : ℕ) (s : Str)
    → v < 0x110000
    → decode_octet (0xF0 + v / 262144) s ≡ decode_four (0xF0 + v / 262144) s
unfolding decode_octet
decode_octet_four v s h = ground arith

-- What follows the first unit of the octets of a code point.
abbrev pub tail_of : ℕ → Str
tail_of v = drop 1 (escaped v)

pub escaped_head : (v : ℕ) → escaped v ≡ b'%' ∷ tail_of v
unfolding escaped octet
escaped_head v = ground arith

pub decode-escaped_one :
    (v : ℕ) (t : Str) → v < 0x80 → decode_one b'%' (tail_of v ++ t) ≡ ok (v ∷ [], t)
unfolding escaped octet decode_octet
decode-escaped_one v t h = rw (lt→ltb v 0x80 h) (decode_one-octet v t (omega arith) ∙ ground arith)

pub decode-escaped_two :
    (v : ℕ) (t : Str) → 0x80 ≤ v → v < 0x800 → decode_one b'%' (tail_of v ++ t) ≡ ok (v ∷ [], t)
unfolding escaped octet
decode-escaped_two v t h k =
    rw (nltb v 0x80 h, lt→ltb v 0x800 k)
      (decode_one-octet (0xC0 + v / 64) _ (omega arith)
        ∙ decode_octet_two v _ k
        ∙ decode_two_lem v t h k)

pub decode-escaped_three :
    (v : ℕ) (t : Str)
    → 0x800 ≤ v
    → v < 0x10000
    → is_high v ≡ false
    → is_low v ≡ false
    → decode_one b'%' (tail_of v ++ t) ≡ ok (v ∷ [], t)
unfolding escaped octet
decode-escaped_three v t h k hi lo =
    rw (nltb v 0x80 (omega arith), nltb v 0x800 h, lt→ltb v 0x10000 k)
      (decode_one-octet (0xE0 + v / 4096) _ (omega arith)
        ∙ decode_octet_three v _ k
        ∙ decode_three_lem v t h k hi lo)

pub decode-escaped_four :
    (v : ℕ) (t : Str)
    → 0x10000 ≤ v
    → v < 0x110000
    → decode_one b'%' (tail_of v ++ t) ≡ close_four v t
unfolding escaped octet
decode-escaped_four v t h k =
    rw (nltb v 0x80 (omega arith), nltb v 0x800 (omega arith), nltb v 0x10000 h)
      (decode_one-octet (0xF0 + v / 262144) _ (omega arith)
        ∙ decode_octet_four v _ k
        ∙ decode_four_lem v t k)
