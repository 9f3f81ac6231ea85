-- ===== src/Doctools/Query/Grouping.antt =====
-- The object that `getQueryParameters` (doctools.js) builds, by its keys.
use sbt_example.Common.{
  ◌≡◌, refl, ap, Str, same, same_iff, Option, none, some, List, [], ◌∷◌, ◌++◌, arith, if◌then◌else◌,
  Outcome, ok, ◌>>=◌, bind_inv, ◌∙◌, append_assoc, append-nil, sym, Bool-cases, Option-cases, inl,
  inr,
}
use mathlib.Core.Option
use sbt_example.Js.Text.{split}
use sbt_example.Doctools.Query.{
  Params, own, push, add, inherits, field_of, collect, query_of, get_query_parameters,
}

-- The decoded fields, in order.
abbrev pub decoded : List Str → Outcome (List (Str × Str))
decoded [] = ok []
decoded (part ∷ parts) = do f ← field_of part; fs ← decoded parts; ok (f ∷ fs)

-- The values of a key, in order.
abbrev pub values : Str → List (Str × Str) → List Str
values k [] = []
values k ((j, v) ∷ fs) = if same k j then v ∷ values k fs else values k fs

-- What `values` adds to what an object already holds under a key.
abbrev pub extended : Option (List Str) → List Str → Option (List Str)
extended none [] = none
extended none (v ∷ vs) = some (v ∷ vs)
extended (some us) vs = some (us ++ vs)

append-nil_own : (o : Option (List Str)) → extended o [] ≡ o
append-nil_own none = refl
append-nil_own (some us) = ap some (append-nil us)

pub own-push :
    (j k v : Str) (ps : Params)
    → own j (push k v ps)
      ≡ (if same j k then Option.map (λ vs. vs ++ v ∷ []) (own j ps) else own j ps)
unfolding own push
own-push j k v [] = ground arith
own-push j k v ((i, vs) ∷ ps) =
    ground (arith, own-push j k v ps, same_iff j k, same_iff k i, same_iff j i)

pub own-append :
    (j k v : Str) (ps : Params)
    → own k ps ≡ none
    → own j (ps ++ (k, v ∷ []) ∷ []) ≡ (if same j k then some (v ∷ []) else own j ps)
unfolding own
own-append j k v [] h = refl
own-append j k v ((i, vs) ∷ ps) h =
    ground (arith, own-append j k v ps, same_iff j k, same_iff k i, same_iff j i)

-- One field extends its key's values by one, and leaves the other keys alone.
pub own-add :
    (j k v : Str) (ps qs : Params)
    → add k v ps ≡ ok qs
    → own j qs ≡ extended (own j ps) (values j ((k, v) ∷ []))
unfolding add
own-add j k v ps qs h = elim (Option-cases (own k ps)) [
  | inl absent ↦ elim (Bool-cases (inherits k)) [
    | inl inherited ↦ ground arith
    | inr free ↦
        let h' : ps ++ (k, v ∷ []) ∷ [] ≡ qs = ground arith in
        rw (← h') (ground (arith, own-append j k v ps, same_iff j k, append-nil_own (own j ps)))
  ]
  | inr (vs, present) ↦
      let h' : push k v ps ≡ qs = ground arith in
      rw (← h') (ground (arith, own-push j k v ps, same_iff j k, append-nil_own (own j ps)))
]

extended-extended :
    (o : Option (List Str)) (j k v : Str) (fs : List (Str × Str))
    → extended (extended o (values j ((k, v) ∷ []))) (values j fs)
      ≡ extended o (values j ((k, v) ∷ fs))
extended-extended none j k v fs = ground (arith, append-nil_own (extended none (values j fs)))
extended-extended (some us) j k v fs =
    ground (arith, append_assoc us (v ∷ []) (values j fs), append-nil us)

pub decoded_round :
    (part : Str) (parts : List Str) (f : Str × Str) (fs : List (Str × Str))
    → field_of part ≡ ok f
    → decoded parts ≡ ok fs
    → decoded (part ∷ parts) ≡ ok (f ∷ fs)
decoded_round part parts f fs h k = rw (h, k)

pub collect-values :
    (parts : List Str) (ps qs : Params)
    → collect parts ps ≡ ok qs
    → (fs : List (Str × Str)) × (decoded parts ≡ ok fs)
      × ((j : Str) → own j qs ≡ extended (own j ps) (values j fs))
unfolding collect
collect-values [] ps qs h =
    let same_object : ps ≡ qs = ground arith in
    ([], refl, λ j. rw (← same_object) (sym (append-nil_own (own j ps))))
collect-values (part ∷ parts) ps qs h =
    let ((key, value), read, h') = bind_inv (field_of part) _ h in
    let (more, added, h'') = bind_inv (add key value ps) _ h' in
    let (fs, rest, ih) = collect-values parts more qs h'' in
    (
      (key, value) ∷ fs,
      decoded_round part parts (key, value) fs read rest,
      λ j.
          ih j
          ∙ rw (own-add j key value ps more added) (extended-extended (own j ps) j key value fs),
    )

-- Where `getQueryParameters` returns, every field can be decoded, each key has the values of its
-- fields, in the order of the query, and no other key has any.
pub get_query_parameters-values :
    (s : Str) (qs : Params)
    → get_query_parameters s ≡ ok qs
    → (fs : List (Str × Str)) × (decoded (split b'&' (query_of s)) ≡ ok fs)
      × ((j : Str) → own j qs ≡ extended none (values j fs))
unfolding get_query_parameters own
get_query_parameters-values s qs h = collect-values (split b'&' (query_of s)) [] qs h
