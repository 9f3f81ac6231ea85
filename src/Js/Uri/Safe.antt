-- ===== src/Js/Uri/Safe.antt =====
-- The units that `encodeURIComponent` writes.
use mathlib.Core.Path.{subst}
use sbt_example.Common.{
  ℕ, ◌+◌, ◌/◌, ◌%◌, ◌<◌, ◌≤◌, ◌≡◌, refl, Str, true, ◌||◌, ◌==◌, ◌∷◌, arith, ok, ltb, length, All,
  All-append, Bool-cases, inl, inr, sym,
}
use sbt_example.Js.Loop.{convert-All}
use sbt_example.Js.Uri.Octets.{hex_char, octet}
use sbt_example.Js.Uri.{is_unreserved, escaped, encode_one, encode_uri_component}
use sbt_example.Js.Uri.Steps.{Encoded, plain, single, pair, encode_one_inv, pair_value, IsUnit}

abbrev pub IsSafe : ℕ → Type 0
IsSafe c = (is_unreserved c || c == b'%') ≡ true

hex_char-IsSafe : (n : ℕ) → n < 16 → IsSafe (hex_char n)
unfolding hex_char is_unreserved
hex_char-IsSafe n h = ground arith

octet-IsSafe : (b : ℕ) → b < 256 → All IsSafe (octet b)
unfolding octet is_unreserved
octet-IsSafe b h = (
  hex_mark,
  (hex_char-IsSafe (b / 16) (omega arith), (hex_char-IsSafe (b % 16) (omega arith), tt)),
)
  where
    hex_mark : IsSafe b'%'
    hex_mark = refl

escaped-IsSafe : (v : ℕ) → v < 0x110000 → All IsSafe (escaped v)
unfolding escaped
escaped-IsSafe v h = elim (Bool-cases (ltb v 0x80)) [
  | inl small ↦ rw small (octet-IsSafe v (ground arith))
  | inr a ↦ elim (Bool-cases (ltb v 0x800)) [
    | inl middle ↦
        rw (a, middle)
          (All-append IsSafe (octet (0xC0 + v / 64)) _ (octet-IsSafe _ (ground arith))
            (octet-IsSafe _ (omega arith)))
    | inr b ↦ elim (Bool-cases (ltb v 0x10000)) [
      | inl large ↦
          rw (a, b, large)
            (All-append IsSafe (octet (0xE0 + v / 4096)) _ (octet-IsSafe _ (ground arith)) (
              All-append IsSafe (octet (0x80 + v / 64 % 64)) _ (octet-IsSafe _ (omega arith))
                (octet-IsSafe _ (omega arith))))
      | inr c ↦
          rw (a, b, c)
            (All-append IsSafe (octet (0xF0 + v / 262144)) _ (octet-IsSafe _ (omega arith)) (
              All-append IsSafe (octet (0x80 + v / 4096 % 64)) _ (octet-IsSafe _ (omega arith)) (
                All-append IsSafe (octet (0x80 + v / 64 % 64)) _ (octet-IsSafe _ (omega arith))
                  (octet-IsSafe _ (omega arith)))))
    ]
  ]
]

encode_one-IsSafe :
    (c : ℕ) (s out rest : Str)
    → All IsUnit (c ∷ s)
    → encode_one c s ≡ ok (out, rest)
    → All IsSafe out × All IsUnit rest
encode_one-IsSafe c s out rest p e = go (encode_one_inv c s out rest e)
  where
    go : Encoded c s out rest → All IsSafe out × All IsUnit rest
    go (plain u o r) =
        (subst (λ l. All IsSafe l) (sym o) (ground arith, tt), subst (λ l. All IsUnit l) r p.1)
    go (single hi lo o r) = (
      subst (λ l. All IsSafe l) (sym o) (escaped-IsSafe c (omega arith)),
      subst (λ l. All IsUnit l) r p.1,
    )
    go (pair d hi lo o r) =
        let above : 0xD800 ≤ c = ground arith in
        let below : c ≤ 0xDBFF = ground arith in
        let above' : 0xDC00 ≤ d = ground arith in
        let below' : d ≤ 0xDFFF = ground arith in
        let small : pair_value c d < 0x110000 = omega arith in
        let left : All IsUnit (d ∷ rest) = subst (λ l. All IsUnit l) r p.1 in
        (subst (λ l. All IsSafe l) (sym o) (escaped-IsSafe (pair_value c d) small), left.1)

-- Nothing else is written.
pub encode-IsSafe : (s e : Str) → All IsUnit s → encode_uri_component s ≡ ok e → All IsSafe e
unfolding encode_uri_component
encode-IsSafe s e p h = convert-All IsUnit IsSafe encode_one encode_one-IsSafe (length s) s e p h
