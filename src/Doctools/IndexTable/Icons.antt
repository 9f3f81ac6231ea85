-- ===== src/Doctools/IndexTable/Icons.antt =====
-- The icons `minus.png` and `plus.png` of the index buttons (doctools.js, `initIndexTable`).
use sbt_example.Common.{
  ℕ, ◌-◌, ◌≤◌, ◌≡◌, refl, ap, ◌∙◌, ◌⊎◌, inl, inr, Str, units, same, false, [], ◌∷◌, ◌++◌, take,
  drop, length, length-append, take-append, drop-append, drop-append_le, length-drop, arith,
}
use sbt_example.Js.Text.{last_units}
use sbt_example.Doctools.IndexTable.{flip_src}

-- The end of a text that was put together.
pub last_units-append : (n : ℕ) (p s : Str) → length s ≡ n → last_units n (p ++ s) ≡ s
last_units-append n p s e =
    let cut : length (p ++ s) - n ≡ length p = omega (arith, length-append p s) in
    ap (λ k. drop k (p ++ s)) cut ∙ drop-append p s

front-append : (n : ℕ) (p s : Str) → length s ≡ n → take (length (p ++ s) - n) (p ++ s) ≡ p
front-append n p s e =
    let cut : length (p ++ s) - n ≡ length p = omega (arith, length-append p s) in
    ap (λ k. take k (p ++ s)) cut ∙ take-append p s

pub flip_src-minus : (p : Str) → flip_src (p ++ units "minus.png") ≡ p ++ units "plus.png"
unfolding flip_src same
flip_src-minus p =
    rw (last_units-append 9 p (units "minus.png") refl, front-append 9 p (units "minus.png") refl)
      refl

one_before : (s : Str) → length s ≤ 1 → same (s ++ units "plus.png") (units "minus.png") ≡ false
unfolding same
one_before [] h = refl
one_before (c ∷ []) h = ground arith
one_before (c ∷ d ∷ s) h = absurd (omega arith)

-- A text that ends in the plus icon does not end in the minus icon.
pub plus_is_no_minus :
    (p : Str) → same (last_units 9 (p ++ units "plus.png")) (units "minus.png") ≡ false
plus_is_no_minus p =
    let cut : length (p ++ units "plus.png") - 9 ≡ length p - 1 =
      omega (arith, length-append p (units "plus.png")) in
    ap (λ k. same (drop k (p ++ units "plus.png")) (units "minus.png")) cut
    ∙ ap (λ s. same s (units "minus.png"))
        (drop-append_le (length p - 1) p (units "plus.png") (omega arith))
    ∙ one_before (drop (length p - 1) p) (omega (arith, length-drop (length p - 1) p))

pub flip_src-plus : (p : Str) → flip_src (p ++ units "plus.png") ≡ p ++ units "minus.png"
unfolding flip_src
flip_src-plus p = rw (plus_is_no_minus p, front-append 8 p (units "plus.png") refl) refl

abbrev pub IsIcon : Str → Type 0
IsIcon src =
    ((p : Str) × (src ≡ p ++ units "minus.png")) ⊎ ((p : Str) × (src ≡ p ++ units "plus.png"))

-- The other icon of the same path, and the first one again after the second click.
pub flip_src_twice : (src : Str) → IsIcon src → flip_src (flip_src src) ≡ src
flip_src_twice src (inl (p, e)) = rw (e, flip_src-minus p) (flip_src-plus p)
flip_src_twice src (inr (p, e)) = rw (e, flip_src-plus p) (flip_src-minus p)
