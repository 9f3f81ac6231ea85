-- ===== src/Doctools/Query/Shape.antt =====
-- The object that `getQueryParameters` (doctools.js) builds: its keys and the arrays under them.
use sbt_example.Common.{
  ◌≡◌, ◌≢◌, refl, Str, same, same_iff, none, List, [], ◌∷◌, ◌++◌, arith, ok, bind_inv, Bool-cases,
  Option-cases, inl, inr, false,
}
use mathlib.Core.Path.{subst}
use sbt_example.Js.Text.{split}
use sbt_example.Doctools.Query.{
  Params, own, push, add, inherits, field_of, collect, query_of, get_query_parameters,
}
use sbt_example.Doctools.Query.Grouping.{own-push, own-append}

-- Distinct keys, none of them inherited, each with an array that is not empty.
abbrev pub AreArrays : Params → Type 0
AreArrays [] = Unit
AreArrays ((k, vs) ∷ ps) = (own k ps ≡ none) × (inherits k ≡ false) × (vs ≢ []) × AreArrays ps

append-ne-nil : (us : List Str) (v : Str) → us ++ v ∷ [] ≢ []
append-ne-nil [] v e = cc
append-ne-nil (u ∷ us) v e = cc

push-AreArrays : (k v : Str) (ps : Params) → AreArrays ps → AreArrays (push k v ps)
unfolding push own
push-AreArrays k v [] h = tt
push-AreArrays k v ((j, vs) ∷ ps) (fresh, free, n, hs) = elim (Bool-cases (same k j)) [
  | inl e ↦ rw (e, push) (fresh, free, append-ne-nil vs v, hs)
  | inr e ↦
      let fresh' : own j (push k v ps) ≡ none =
        ground (arith, own-push j k v ps, same_iff j k, same_iff k j) in
      rw (e, push) (fresh', free, n, push-AreArrays k v ps hs)
]

append-AreArrays :
    (k v : Str) (ps : Params)
    → own k ps ≡ none
    → inherits k ≡ false
    → AreArrays ps
    → AreArrays (ps ++ (k, v ∷ []) ∷ [])
unfolding own
append-AreArrays k v [] e free h = (refl, free, (λ p. cc), tt)
append-AreArrays k v ((j, vs) ∷ ps) e free (fresh, free', n, hs) =
    let later : own k ps ≡ none = ground arith in
    let fresh' : own j (ps ++ (k, v ∷ []) ∷ []) ≡ none =
      ground (arith, own-append j k v ps later, same_iff j k, same_iff k j) in
    (fresh', free', n, append-AreArrays k v ps later free hs)

add-AreArrays : (k v : Str) (ps qs : Params) → AreArrays ps → add k v ps ≡ ok qs → AreArrays qs
unfolding add
add-AreArrays k v ps qs h e = elim (Option-cases (own k ps)) [
  | inl absent ↦ elim (Bool-cases (inherits k)) [
    | inl inherited ↦ absurd (ground arith)
    | inr free ↦
        let e' : ps ++ (k, v ∷ []) ∷ [] ≡ qs = ground arith in
        subst AreArrays e' (append-AreArrays k v ps absent free h)
  ]
  | inr (vs, present) ↦
      let e' : push k v ps ≡ qs = ground arith in subst AreArrays e' (push-AreArrays k v ps h)
]

collect-AreArrays :
    (parts : List Str) (ps qs : Params) → AreArrays ps → collect parts ps ≡ ok qs → AreArrays qs
unfolding collect
collect-AreArrays [] ps qs h e =
    let same_object : ps ≡ qs = ground arith in subst AreArrays same_object h
collect-AreArrays (part ∷ parts) ps qs h e =
    let ((key, value), read, e') = bind_inv (field_of part) _ e in
    let (more, added, e'') = bind_inv (add key value ps) _ e' in
    collect-AreArrays parts more qs (add-AreArrays key value ps more h added) e''

-- Where `getQueryParameters` returns, its object has distinct keys, none of them the name of an
-- inherited property, and under each an array with at least one value.
pub get_query_parameters-AreArrays :
    (s : Str) (qs : Params) → get_query_parameters s ≡ ok qs → AreArrays qs
unfolding get_query_parameters
get_query_parameters-AreArrays s qs h = collect-AreArrays (split b'&' (query_of s)) [] qs tt h
