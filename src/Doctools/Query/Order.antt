-- ===== src/Doctools/Query/Order.antt =====
-- The object of `getQueryParameters` (doctools.js) for the same fields in different orders.
use mathlib.Core.List.Permᴰ
use mathlib.Core.List.{Permᴰ}
use mathlib.Core.Path.{subst}
use sbt_example.Common.{
  ◌≡◌, refl, ap, sym, ◌∙◌, Str, Bool, true, false, same, Option, none, some, List, [], ◌∷◌, arith,
  ok, if◌then◌else◌, bind_inv,
}
use sbt_example.Js.Text.{split}
use sbt_example.Doctools.Query.{Params, own, inherits, field_of, query_of, get_query_parameters}
use sbt_example.Doctools.Query.Grouping.{
  decoded, decoded_round, values, extended, get_query_parameters-values,
}
use sbt_example.Doctools.Query.Totality.{AreFree, get_query_parameters_iff}

-- The values under a key, none where the key is missing.
abbrev pub held : Option (List Str) → List Str
held none = []
held (some vs) = vs

held-extended : (vs : List Str) → held (extended none vs) ≡ vs
held-extended [] = refl
held-extended (v ∷ vs) = refl

-- A value in front, if it is the key's.
abbrev put : Bool → Str → List Str → List Str
put mine v vs = if mine then v ∷ vs else vs

put-Perm :
    (mine : Bool) (v : Str) {us vs : List Str} → Permᴰ us vs → Permᴰ (put mine v us) (put mine v vs)
put-Perm true v p = Permᴰ.cons refl p
put-Perm false v p = p

put_swap :
    (a b : Bool) (u v : Str) (vs : List Str) → Permᴰ (put a u (put b v vs)) (put b v (put a u vs))
put_swap true true u v vs = Permᴰ.swap refl refl
put_swap true false u v vs = Permᴰ.refl (u ∷ vs)
put_swap false b u v vs = Permᴰ.refl (put b v vs)

values-Perm : (j : Str) (fs gs : List (Str × Str)) → Permᴰ fs gs → Permᴰ (values j fs) (values j gs)
values-Perm j fs gs Permᴰ.nil = Permᴰ.nil
values-Perm j ((k, v) ∷ fs) (g ∷ gs) (Permᴰ.cons e p) =
    subst (λ f. Permᴰ (values j ((k, v) ∷ fs)) (values j (f ∷ gs))) e
      (put-Perm (same j k) v (values-Perm j fs gs p))
values-Perm j ((k, v) ∷ (l, w) ∷ fs) (g ∷ f ∷ gs) (Permᴰ.swap e d) =
    subst (λ a. Permᴰ (values j ((k, v) ∷ (l, w) ∷ fs)) (values j (g ∷ a ∷ fs))) e
      (subst (λ a. Permᴰ (values j ((k, v) ∷ (l, w) ∷ fs)) (values j (a ∷ (k, v) ∷ fs))) d
        (put_swap (same j k) (same j l) v w (values j fs)))
values-Perm j fs gs (Permᴰ.trans {l₂ = hs} p q) =
    Permᴰ.trans (values-Perm j fs hs p) (values-Perm j hs gs q)

AreFree-Perm : (fs gs : List (Str × Str)) → Permᴰ fs gs → AreFree fs → AreFree gs
AreFree-Perm fs gs Permᴰ.nil h = tt
AreFree-Perm (f ∷ fs) (g ∷ gs) (Permᴰ.cons e p) (h, hs) =
    (subst (λ (k, v). inherits k ≡ false) e h, AreFree-Perm fs gs p hs)
AreFree-Perm (f ∷ f' ∷ fs) (g ∷ g' ∷ gs) (Permᴰ.swap e d) (h, (h', hs)) =
    (subst (λ (k, v). inherits k ≡ false) d h', (subst (λ (k, v). inherits k ≡ false) e h, hs))
AreFree-Perm fs gs (Permᴰ.trans {l₂ = hs} p q) h = AreFree-Perm hs gs q (AreFree-Perm fs hs p h)

decoded_inv :
    (part : Str) (parts : List Str) (fs : List (Str × Str))
    → decoded (part ∷ parts) ≡ ok fs
    → (f : Str × Str) × (gs : List (Str × Str)) × (field_of part ≡ ok f)
      × (decoded parts ≡ ok gs)
      × (f ∷ gs ≡ fs)
decoded_inv part parts fs h =
    let (f, read, h') = bind_inv (field_of part) _ h in
    let (gs, later, h'') = bind_inv (decoded parts) _ h' in (f, gs, read, later, ground arith)

decoded-Perm :
    (ps qs : List Str) (fs : List (Str × Str))
    → Permᴰ ps qs
    → decoded ps ≡ ok fs
    → (gs : List (Str × Str)) × (decoded qs ≡ ok gs) × Permᴰ fs gs
decoded-Perm ps qs fs Permᴰ.nil h = (fs, h, Permᴰ.refl fs)
decoded-Perm (p ∷ ps) (q ∷ qs) fs (Permᴰ.cons e π) h =
    let (f, rest, read, later, listed) = decoded_inv p ps fs h in
    let (gs, later', perm) = decoded-Perm ps qs rest π later in
    (
      f ∷ gs,
      decoded_round q qs f gs (subst (λ s. field_of s ≡ ok f) e read) later',
      subst (λ l. Permᴰ l (f ∷ gs)) listed (Permᴰ.cons refl perm),
    )
decoded-Perm (p ∷ p' ∷ ps) (q ∷ q' ∷ qs) fs (Permᴰ.swap e d) h =
    let (f, rest, read, later, listed) = decoded_inv p (p' ∷ ps) fs h in
    let (f', rest', read', later', listed') = decoded_inv p' ps rest later in
    (
      f' ∷ f ∷ rest',
      decoded_round q (q' ∷ ps) f' (f ∷ rest') (subst (λ s. field_of s ≡ ok f') d read')
          (decoded_round q' ps f rest' (subst (λ s. field_of s ≡ ok f) e read) later'),
      subst (λ l. Permᴰ l (f' ∷ f ∷ rest')) (ap (λ l. f ∷ l) listed' ∙ listed)
          (Permᴰ.swap refl refl),
    )
decoded-Perm ps qs fs (Permᴰ.trans {l₂ = ms} π ρ) h =
    let (gs, read, perm) = decoded-Perm ps ms fs π h in
    let (hs, read', perm') = decoded-Perm ms qs gs ρ read in (hs, read', Permᴰ.trans perm perm')

held-own :
    (s : Str) (ps : Params) (fs : List (Str × Str))
    → get_query_parameters s ≡ ok ps
    → decoded (split b'&' (query_of s)) ≡ ok fs
    → (j : Str) → held (own j ps) ≡ values j fs
held-own s ps fs h read j =
    let (gs, read', owned) = get_query_parameters-values s ps h in
    let same_fields : gs ≡ fs = ground arith in
    ap held (owned j) ∙ (held-extended (values j gs) ∙ ap (values j) same_fields)

-- Let two queries have the same parts, in whatever order. Where getQueryParameters returns on the
-- one, it returns on the other, and each key has the same values in both objects, but for their
-- order.
pub get_query_parameters-Perm :
    (s t : Str) (ps : Params)
    → Permᴰ (split b'&' (query_of s)) (split b'&' (query_of t))
    → get_query_parameters s ≡ ok ps
    → (qs : Params) × (get_query_parameters t ≡ ok qs)
      × ((j : Str) → Permᴰ (held (own j ps)) (held (own j qs)))
get_query_parameters-Perm s t ps π h =
    let (fs, read, free) = (get_query_parameters_iff s).0 (ps, h) in
    let (gs, read', perm) = decoded-Perm _ _ fs π read in
    let (qs, done) = (get_query_parameters_iff t).1 (gs, read', AreFree-Perm fs gs perm free) in
    (
      qs,
      done,
      λ j.
          subst (λ l. Permᴰ l (held (own j qs))) (sym (held-own s ps fs h read j))
            (subst (λ l. Permᴰ (values j fs) l) (sym (held-own t qs gs done read' j))
              (values-Perm j fs gs perm)),
    )
