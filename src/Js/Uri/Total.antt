-- ===== src/Js/Uri/Total.antt =====
-- The strings that `encodeURIComponent` takes.
use sbt_example.Common.{
  ℕ, zero, suc, ◌+◌, ◌-◌, ◌*◌, ◌≤◌, ◌≡◌, refl, ap, sym, ◌∙◌, Str, Bool, true, false, not, ◌&&◌, [],
  ◌∷◌, ◌++◌, arith, length, ok, throw, uri_error, ◌↔◌, Bool-cases, inl, inr, bind_inv,
}
use native.Mathlib.Nat.{le_refl}
use sbt_example.Js.Loop.{convert, convert_nil}
use sbt_example.Js.Uri.{
  is_unreserved, is_high, is_low, escaped, encode_pair, encode_one, encode_uri_component,
}

-- UTF-16: each high surrogate has a low one behind it, and each low one a high one before it.
unfoldable pub is_well_formed : Str → Bool
is_well_formed [] = true
is_well_formed (c ∷ []) = not (is_high c) && not (is_low c)
is_well_formed (c ∷ d ∷ s) = elim (is_high c) [
  | true ↦ is_low d && is_well_formed s
  | false ↦ not (is_low c) && is_well_formed (d ∷ s)
]

encode_one-single :
    (c : ℕ) (s : Str)
    → is_high c ≡ false
    → is_low c ≡ false
    → (out : Str) × (encode_one c s ≡ ok (out, s))
unfolding encode_one
encode_one-single c s h l = elim (Bool-cases (is_unreserved c)) [
  | inl u ↦ (c ∷ [], rw u refl)
  | inr u ↦ (escaped c, rw (u, l, h) refl)
]

-- Surrogates are not among the units that stand for themselves.
surrogate_escapes : (c : ℕ) → 0xD800 ≤ c → is_unreserved c ≡ false
unfolding is_unreserved
surrogate_escapes c h = ground arith

encode_one-low : (c : ℕ) (s : Str) → is_low c ≡ true → encode_one c s ≡ throw uri_error
unfolding encode_one
encode_one-low c s l = let u = surrogate_escapes c (ground arith) in rw (u, l) refl

encode_one-high : (c : ℕ) (s : Str) → is_high c ≡ true → encode_one c s ≡ encode_pair c s
unfolding encode_one
encode_one-high c s h =
    let u = surrogate_escapes c (ground arith) in
    let l : is_low c ≡ false = ground arith in rw (u, l, h) refl

encode_pair-low :
    (c d : ℕ) (s : Str) → is_low d ≡ true → (out : Str) × (encode_pair c (d ∷ s) ≡ ok (out, s))
unfolding encode_pair
encode_pair-low c d s l = (escaped (0x10000 + (c - 0xD800) * 1024 + (d - 0xDC00)), rw l refl)

encode_pair-end : (c : ℕ) → encode_pair c [] ≡ throw uri_error
unfolding encode_pair
encode_pair-end c = refl

encode_pair-other : (c d : ℕ) (s : Str) → is_low d ≡ false → encode_pair c (d ∷ s) ≡ throw uri_error
unfolding encode_pair
encode_pair-other c d s l = rw l refl

-- A round that goes on, and one that throws.
convert_more :
    (m c : ℕ) (s out rest : Str)
    → encode_one c s ≡ ok (out, rest)
    → ((e : Str) × (convert encode_one m rest ≡ ok e))
      ↔ ((e : Str) × (convert encode_one (suc m) (c ∷ s) ≡ ok e))
unfolding convert
convert_more m c s out rest h = (
  λ (e, k). (out ++ e, rw (h, k) refl),
  λ (e, k).
      let k' = rw h at k in
      let (more, later, _) = bind_inv (convert encode_one m rest) _ k' in (more, later),
)

convert_throws :
    (m c : ℕ) (s : Str)
    → encode_one c s ≡ throw uri_error
    → ¬ ((e : Str) × (convert encode_one (suc m) (c ∷ s) ≡ ok e))
unfolding convert
convert_throws m c s h (e, k) = let k' = rw h at k in cc

abbrev Encodes : ℕ → Str → Type 0
Encodes m s = (e : Str) × (convert encode_one m s ≡ ok e)

well_formed-high :
    (c d : ℕ) (s : Str)
    → is_high c ≡ true
    → is_well_formed (c ∷ d ∷ s) ≡ (is_low d && is_well_formed s)
unfolding is_well_formed
well_formed-high c d s h = rw (h, is_well_formed) refl

well_formed-one :
    (c : ℕ) (s : Str)
    → is_high c ≡ false
    → is_low c ≡ false
    → is_well_formed (c ∷ s) ≡ is_well_formed s
unfolding is_well_formed
well_formed-one c [] h l = rw (h, l) refl
well_formed-one c (d ∷ s) h l = rw (h, is_well_formed) (rw l refl)

well_formed-low :
    (c : ℕ) (s : Str) → is_high c ≡ false → is_low c ≡ true → is_well_formed (c ∷ s) ≡ false
unfolding is_well_formed
well_formed-low c [] h l = rw (h, l) refl
well_formed-low c (d ∷ s) h l = rw (h, is_well_formed) (rw l refl)

well_formed-end : (c : ℕ) → is_high c ≡ true → is_well_formed (c ∷ []) ≡ false
unfolding is_well_formed
well_formed-end c h = rw h refl

-- Two ways to an equivalence: both sides fail, or both are those of what is left to read.
both_fail : (A : Type 0) (b : Bool) → ¬ A → b ≡ false → A ↔ (b ≡ true)
both_fail A b n e = ((λ a. absurd (n a)), λ p. cc)

both_go_on : (A B : Type 0) (w b : Bool) → A ↔ B → b ≡ w → A ↔ (w ≡ true) → B ↔ (b ≡ true)
both_go_on A B w b (to, from) e (reads, back) =
    ((λ x. e ∙ reads (from x)), λ p. to (back (sym e ∙ p)))

Encodes-high :
    (m c : ℕ) (s : Str)
    → is_high c ≡ true
    → ((t : Str) → length t ≤ m → Encodes m t ↔ (is_well_formed t ≡ true))
    → length s ≤ m
    → Encodes (suc m) (c ∷ s) ↔ (is_well_formed (c ∷ s) ≡ true)
Encodes-high m c [] h ih k =
    both_fail (Encodes (suc m) (c ∷ [])) (is_well_formed (c ∷ []))
      (convert_throws m c [] (encode_one-high c [] h ∙ encode_pair-end c)) (well_formed-end c h)
Encodes-high m c (d ∷ s) h ih k = elim (Bool-cases (is_low d)) [
  | inl l ↦
      let (out, e) = encode_pair-low c d s l in
      both_go_on (Encodes m s) (Encodes (suc m) (c ∷ d ∷ s)) (is_well_formed s)
        (is_well_formed (c ∷ d ∷ s))
        (convert_more m c (d ∷ s) out s (encode_one-high c (d ∷ s) h ∙ e))
        (well_formed-high c d s h ∙ ap (λ b. b && is_well_formed s) l) (ih s (omega arith))
  | inr l ↦
      both_fail (Encodes (suc m) (c ∷ d ∷ s)) (is_well_formed (c ∷ d ∷ s))
        (convert_throws m c (d ∷ s) (encode_one-high c (d ∷ s) h ∙ encode_pair-other c d s l))
        (well_formed-high c d s h ∙ ap (λ b. b && is_well_formed s) l)
]

Encodes-iff : (m : ℕ) (s : Str) → length s ≤ m → Encodes m s ↔ (is_well_formed s ≡ true)
Encodes-iff m [] k = ((λ _. unfold is_well_formed in refl), λ _. ([], convert_nil encode_one m))
Encodes-iff zero (c ∷ s) k = absurd (omega arith)
Encodes-iff (suc m) (c ∷ s) k = elim (Bool-cases (is_high c)) [
  | inl h ↦ Encodes-high m c s h (Encodes-iff m) (omega arith)
  | inr h ↦ elim (Bool-cases (is_low c)) [
    | inl l ↦
        both_fail (Encodes (suc m) (c ∷ s)) (is_well_formed (c ∷ s))
          (convert_throws m c s (encode_one-low c s l)) (well_formed-low c s h l)
    | inr l ↦
        let (out, e) = encode_one-single c s h l in
        both_go_on (Encodes m s) (Encodes (suc m) (c ∷ s)) (is_well_formed s)
          (is_well_formed (c ∷ s)) (convert_more m c s out s e) (well_formed-one c s h l)
          (Encodes-iff m s (omega arith))
  ]
]

-- `encodeURIComponent` returns exactly for well-formed UTF-16.
pub encode_uri_component_iff :
    (s : Str) → ((e : Str) × (encode_uri_component s ≡ ok e)) ↔ (is_well_formed s ≡ true)
unfolding encode_uri_component
encode_uri_component_iff s = Encodes-iff (length s) s (le_refl _)
