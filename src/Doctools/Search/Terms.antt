-- ===== src/Doctools/Search/Terms.antt =====
-- The terms of a search (doctools.js, `highlightSearchWords`), as `split(/\s+/)` makes them.
use sbt_example.Common.{
  ℕ, ◌≡◌, refl, ap, sym, ◌∙◌, Str, Bool, true, false, ◌||◌, List, [], ◌∷◌, ◌++◌, any, All,
  Bool-cases, inl, inr, if◌then◌else◌,
}
use sbt_example.Js.Text.{is_space, onto_first}
use sbt_example.Doctools.Search.{starts_space, split_spaces}
use sbt_example.Doctools.Search.Laws.{split_spaces-words}

abbrev pub ends_space : Str → Bool
ends_space [] = false
ends_space (c ∷ []) = is_space c
ends_space (c ∷ d ∷ s) = ends_space (d ∷ s)

abbrev pub is_empty : Str → Bool
is_empty [] = true
is_empty (c ∷ s) = false

-- A text without its spaces.
unfoldable pub without_spaces : Str → Str
without_spaces [] = []
without_spaces (c ∷ s) = let rest = without_spaces s in if is_space c then rest else c ∷ rest

abbrev pub joined : List Str → Str
joined [] = []
joined (t ∷ ts) = t ++ joined ts

-- The parts behind the first.
abbrev others : List Str → List Str
others [] = []
others (t ∷ ts) = ts

joined-onto_first : (c : ℕ) (ps : List Str) → joined (onto_first c ps) ≡ c ∷ joined ps
joined-onto_first c [] = refl
joined-onto_first c (p ∷ ps) = refl

joined-split_spaces : (s : Str) → joined (split_spaces s) ≡ without_spaces s
unfolding split_spaces without_spaces
joined-split_spaces [] = refl
joined-split_spaces (c ∷ s) = elim (Bool-cases (is_space c)) [
  | inr word ↦
      rw word (joined-onto_first c (split_spaces s) ∙ ap (λ r. c ∷ r) (joined-split_spaces s))
  | inl space ↦ elim (Bool-cases (starts_space s)) [
    | inl more ↦ rw (space, more) (joined-split_spaces s)
    | inr last ↦ rw (space, last) (joined-split_spaces s)
  ]
]

ends_space-word : (c : ℕ) (s : Str) → is_space c ≡ false → ends_space (c ∷ s) ≡ ends_space s
ends_space-word c [] h = h
ends_space-word c (d ∷ s) h = refl

ends_space-more : (c : ℕ) (s : Str) → starts_space s ≡ true → ends_space (c ∷ s) ≡ ends_space s
ends_space-more c [] h = cc
ends_space-more c (d ∷ s) h = refl

ends_space-last :
    (c : ℕ) (s : Str)
    → is_space c ≡ true
    → starts_space s ≡ false
    → ((is_empty s || starts_space s) || ends_space s) ≡ ends_space (c ∷ s)
ends_space-last c [] h k = sym h
ends_space-last c (d ∷ s) h k = rw k refl

or_starts : (s : Str) → starts_space s ≡ true → (is_empty s || starts_space s) ≡ true
or_starts [] h = cc
or_starts (c ∷ s) h = h

-- The first part, and the parts behind it.
split_spaces-parts :
    (s : Str)
    → (p : Str) × (ps : List Str) × (split_spaces s ≡ p ∷ ps)
      × (is_empty p ≡ (is_empty s || starts_space s))
      × (any is_empty ps ≡ ends_space s)
unfolding split_spaces
split_spaces-parts [] = ([], [], refl, refl, refl)
split_spaces-parts (c ∷ s) =
    let (p, ps, e, first, rest) = split_spaces-parts s in
    elim (Bool-cases (is_space c)) [
      | inr word ↦ (c ∷ p, ps, rw (word, e) refl, sym word, rest ∙ sym (ends_space-word c s word))
      | inl space ↦ elim (Bool-cases (starts_space s)) [
        | inl more ↦ (
          p,
          ps,
          rw (space, more) e,
          first ∙ (or_starts s more ∙ sym space),
          rest ∙ sym (ends_space-more c s more),
        )
        | inr last ↦ (
          [],
          p ∷ ps,
          rw (space, last) (ap (λ l. [] ∷ l) e),
          sym space,
          rw (first, rest) (ends_space-last c s space last),
        )
      ]
    ]

-- The terms of a search hold no spaces and read, one behind the other, as the value of the
-- parameter without its spaces. One of them is empty exactly if the value is, or starts or ends with
-- a space.
pub split_spaces_lem :
    (s : Str)
    → All (All (λ c. is_space c ≡ false)) (split_spaces s)
      × (joined (split_spaces s) ≡ without_spaces s)
      × (any is_empty (split_spaces s) ≡ (is_empty s || starts_space s || ends_space s))
split_spaces_lem s =
    let (p, ps, e, first, rest) = split_spaces-parts s in
    (split_spaces-words s, joined-split_spaces s, rw e (rw (first, rest) refl))
