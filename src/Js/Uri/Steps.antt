-- ===== src/Js/Uri/Steps.antt =====
-- The steps of the encoder and of the decoder.
use sbt_example.Common.{
  ℕ, ◌+◌, ◌-◌, ◌*◌, ◌<◌, ◌≤◌, ◌≡◌, ap, Str, true, false, [], ◌∷◌, ◌++◌, arith, ok, ltb, length, inl,
  inr, Bool-cases, ◌∙◌,
}
use sbt_example.Js.Loop.{IsAdvancing, IsReadBy}
use sbt_example.Js.Uri.{
  is_unreserved, is_high, is_low, escaped, encode_pair, encode_one, decode_one,
}
use sbt_example.Js.Uri.RoundTrip.{
  tail_of, escaped_head, close_four_lem, decode-escaped_one, decode-escaped_two,
  decode-escaped_three, decode-escaped_four,
}

abbrev pub pair_value : ℕ → ℕ → ℕ
pair_value c d = 0x10000 + (c - 0xD800) * 1024 + (d - 0xDC00)

-- The three ways in which a step succeeds: a unit that stands for itself, an escaped unit, an
-- escaped pair of surrogates.
pub data Encoded (c : ℕ) (s out rest : Str) : Type 0 where
  plain : is_unreserved c ≡ true → out ≡ c ∷ [] → s ≡ rest → Encoded c s out rest
  single : is_high c ≡ false → is_low c ≡ false → out ≡ escaped c → s ≡ rest → Encoded c s out rest
  pair :
      (d : ℕ)
      → is_high c ≡ true
      → is_low d ≡ true
      → out ≡ escaped (pair_value c d)
      → s ≡ d ∷ rest
      → Encoded c s out rest

encode_pair_inv :
    (c : ℕ) (s out rest : Str)
    → is_high c ≡ true
    → encode_pair c s ≡ ok (out, rest)
    → Encoded c s out rest
unfolding encode_pair
encode_pair_inv c [] out rest h e = cc
encode_pair_inv c (d ∷ s) out rest h e = elim (Bool-cases (is_low d)) [
  | inl low ↦ let e' = rw low at e in pair d h low (ground arith) (ground arith)
  | inr other ↦ let e' = rw other at e in cc
]

pub encode_one_inv :
    (c : ℕ) (s out rest : Str) → encode_one c s ≡ ok (out, rest) → Encoded c s out rest
unfolding encode_one
encode_one_inv c s out rest e = elim (Bool-cases (is_unreserved c)) [
  | inl u ↦ let e' = rw u at e in plain u (ground arith) (ground arith)
  | inr u ↦ elim (Bool-cases (is_low c)) [
    | inl low ↦ let e' = rw (u, low) at e in cc
    | inr low ↦ elim (Bool-cases (is_high c)) [
      | inl high ↦ encode_pair_inv c s out rest high (rw (u, low, high) at e)
      | inr high ↦ let e' = rw (u, low, high) at e in single high low (ground arith) (ground arith)
    ]
  ]
]

pub encode_one-IsAdvancing : IsAdvancing encode_one
encode_one-IsAdvancing c s out rest e = go (encode_one_inv c s out rest e)
  where
    go : Encoded c s out rest → length rest ≤ length s
    go (plain u o r) = omega (arith, ap length r)
    go (single hi lo o r) = omega (arith, ap length r)
    go (pair d hi lo o r) = omega (arith, ap length r)

-- The bound of a code unit.
abbrev pub IsUnit : ℕ → Type 0
IsUnit c = c < 0x10000

decode-plain : (c : ℕ) (t : Str) → is_unreserved c ≡ true → decode_one c t ≡ ok (c ∷ [], t)
unfolding decode_one is_unreserved
decode-plain c t h = ground arith

decode-single :
    (c : ℕ) (t : Str)
    → c < 0x10000
    → is_high c ≡ false
    → is_low c ≡ false
    → decode_one b'%' (tail_of c ++ t) ≡ ok (c ∷ [], t)
decode-single c t h hi lo = elim (Bool-cases (ltb c 0x80)) [
  | inl small ↦ decode-escaped_one c t (ground arith)
  | inr above ↦ elim (Bool-cases (ltb c 0x800)) [
    | inl middle ↦ decode-escaped_two c t (ground arith) (ground arith)
    | inr large ↦ decode-escaped_three c t (ground arith) h hi lo
  ]
]

decode-pair :
    (c d : ℕ) (t : Str)
    → is_high c ≡ true
    → is_low d ≡ true
    → decode_one b'%' (tail_of (pair_value c d) ++ t) ≡ ok (c ∷ d ∷ [], t)
decode-pair c d t hi lo =
    let above : 0xD800 ≤ c = ground arith in
    let below : c ≤ 0xDBFF = ground arith in
    let above' : 0xDC00 ≤ d = ground arith in
    let below' : d ≤ 0xDFFF = ground arith in
    decode-escaped_four (pair_value c d) t (omega arith) (omega arith)
    ∙ close_four_lem c d t above below above' below'

pub encode_one-IsReadBy : IsReadBy IsUnit encode_one decode_one
encode_one-IsReadBy c s out rest p e = go (encode_one_inv c s out rest e)
  where
    go :
        Encoded c s out rest
        → (o : ℕ) × (os used : Str) × (out ≡ o ∷ os)
          × (c ∷ s ≡ used ++ rest)
          × ((t : Str) → decode_one o (os ++ t) ≡ ok (used, t))
    go (plain u o r) = (c, [], c ∷ [], o, ap (λ l. c ∷ l) r, λ t. decode-plain c t u)
    go (single hi lo o r) = (
      b'%',
      tail_of c,
      c ∷ [],
      o ∙ escaped_head c,
      ap (λ l. c ∷ l) r,
      λ t. decode-single c t p.0 hi lo,
    )
    go (pair d hi lo o r) = (
      b'%',
      tail_of (pair_value c d),
      c ∷ d ∷ [],
      o ∙ escaped_head (pair_value c d),
      ap (λ l. c ∷ l) r,
      λ t. decode-pair c d t hi lo,
    )
