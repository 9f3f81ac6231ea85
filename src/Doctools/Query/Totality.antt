-- ===== src/Doctools/Query/Totality.antt =====
-- The exceptions of `getQueryParameters` (doctools.js).
use mathlib.Core.Path.{subst}
use sbt_example.Common.{
  sym, ◌≡◌, ◌≢◌, ◌↔◌, refl, Str, same_iff, false, true, none, List, [], ◌∷◌, ◌++◌, arith, ok,
  bind_inv, Option-cases, inl, inr, All,
}
use sbt_example.Js.Text.{split}
use sbt_example.Js.Uri.Total.{is_well_formed, encode_uri_component_iff}
use sbt_example.Doctools.Query.{
  Params, own, push, add, inherits, field_of, collect, query_of, get_query_parameters, urlencode,
}
use sbt_example.Doctools.Query.Grouping.{decoded, own-add, collect-values}

-- No field's key is a name that every object inherits.
abbrev pub AreFree : List (Str × Str) → Type 0
AreFree = All (λ (k, v). inherits k ≡ false)

add_total : (k v : Str) (ps : Params) → inherits k ≡ false → (qs : Params) × (add k v ps ≡ ok qs)
unfolding add
add_total k v ps free = elim (Option-cases (own k ps)) [
  | inl absent ↦ (ps ++ (k, v ∷ []) ∷ [], ground arith)
  | inr (vs, present) ↦ (push k v ps, ground arith)
]

-- A round of the loop.
collect_round :
    (part : Str) (parts : List Str) (k v : Str) (ps more qs : Params)
    → field_of part ≡ ok (k, v)
    → add k v ps ≡ ok more
    → collect parts more ≡ ok qs
    → collect (part ∷ parts) ps ≡ ok qs
unfolding collect
collect_round part parts k v ps more qs read added done = rw (read, added) done

collect_total :
    (parts : List Str) (ps : Params) (fs : List (Str × Str))
    → decoded parts ≡ ok fs
    → AreFree fs
    → (qs : Params) × (collect parts ps ≡ ok qs)
unfolding collect
collect_total [] ps fs h free = (ps, refl)
collect_total (part ∷ parts) ps fs h free =
    let ((key, value), read, h') = bind_inv (field_of part) _ h in
    let (gs, later, h'') = bind_inv (decoded parts) _ h' in
    let listed : (key, value) ∷ gs ≡ fs = ground arith in
    let (f, free') = subst (λ l. AreFree l) (sym listed) free in
    let (more, added) = add_total key value ps f in
    let (qs, done) = collect_total parts more gs later free' in
    (qs, collect_round part parts key value ps more qs read added done)

-- Only names that are not inherited become keys.
abbrev OwnsFree : Params → Type 0
OwnsFree ps = (j : Str) → own j ps ≢ none → inherits j ≡ false

owns_nothing : OwnsFree []
unfolding own
owns_nothing j n = absurd (n refl)

add_free :
    (k v : Str) (ps qs : Params)
    → OwnsFree ps
    → add k v ps ≡ ok qs
    → (inherits k ≡ false) × OwnsFree qs
unfolding add
add_free k v ps qs inv h =
    let free : inherits k ≡ false = ground (arith, inv k) in
    (free, λ j n. ground (arith, own-add j k v ps qs h, same_iff j k, inv j))

collect_free :
    (parts : List Str) (ps qs : Params) (fs : List (Str × Str))
    → OwnsFree ps
    → collect parts ps ≡ ok qs
    → decoded parts ≡ ok fs
    → AreFree fs
unfolding collect
collect_free [] ps qs fs inv h d =
    let nothing : [] ≡ fs = ground arith in subst (λ l. AreFree l) nothing tt
collect_free (part ∷ parts) ps qs fs inv h d =
    let ((key, value), read, h') = bind_inv (field_of part) _ h in
    let (more, added, h'') = bind_inv (add key value ps) _ h' in
    let (f, read', d') = bind_inv (field_of part) _ d in
    let (gs, later, d'') = bind_inv (decoded parts) _ d' in
    let listed : (key, value) ∷ gs ≡ fs = ground arith in
    let (free, inv') = add_free key value ps more inv added in
    subst (λ l. AreFree l) listed (free, collect_free parts more qs gs inv' h'' later)

-- `getQueryParameters` returns exactly when every field can be decoded and no key is the name of
-- an inherited property.
pub get_query_parameters_iff :
    (s : Str)
    → ((qs : Params) × (get_query_parameters s ≡ ok qs))
      ↔ ((fs : List (Str × Str)) × (decoded (split b'&' (query_of s)) ≡ ok fs) × AreFree fs)
unfolding get_query_parameters
get_query_parameters_iff s = (
  λ (qs, h).
      let (fs, d, _) = collect-values (split b'&' (query_of s)) [] qs h in
      (fs, d, collect_free (split b'&' (query_of s)) [] qs fs owns_nothing h d),
  λ (fs, d, free). collect_total (split b'&' (query_of s)) [] fs d free,
)

-- `urlencode` returns exactly for well-formed UTF-16: each high surrogate has a low one behind it,
-- and each low one a high one before it.
pub urlencode_iff : (s : Str) → ((e : Str) × (urlencode s ≡ ok e)) ↔ (is_well_formed s ≡ true)
unfolding urlencode
urlencode_iff s = encode_uri_component_iff s
