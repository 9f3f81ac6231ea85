-- ===== src/Js/Text/Laws.antt =====
-- `split` behind `join`, which doctools.js calls on paths and queries.
use sbt_example.Common.{
  ℕ, zero, suc, ◌≤◌, ◌-◌, Option-cases, ◌≡◌, ◌≢◌, refl, Str, List, [], ◌∷◌, ◌++◌, arith, true,
  false, none, some, take, drop, length, Bool-cases, inl, inr, All,
}
use sbt_example.Js.Text.{split, join, onto_first, starts_with, index_of, substring}

abbrev pub Lacks : ℕ → Str → Type 0
Lacks sep = All (λ c. c ≢ sep)

module _ (sep : ℕ) where
  pub split_of_Lacks : (p : Str) → Lacks sep p → split sep p ≡ p ∷ []
  unfolding split
  split_of_Lacks [] h = refl
  split_of_Lacks (c ∷ p) h = ground (arith, split_of_Lacks p h.1)

  pub split-append : (p s : Str) → Lacks sep p → split sep (p ++ (sep ∷ s)) ≡ p ∷ split sep s
  unfolding split
  split-append [] s h = ground arith
  split-append (c ∷ p) s h = ground (arith, split-append p s h.1)

  -- The parts of a joined text are the parts that were joined.
  pub split-join : (ps : List Str) → ps ≢ [] → All (Lacks sep) ps → split sep (join sep ps) ≡ ps
  unfolding join
  split-join [] n h = absurd (n refl)
  split-join (p ∷ []) n h = split_of_Lacks p h.0
  split-join (p ∷ q ∷ ps) n h = rw (split-append p _ h.0, split-join (q ∷ ps) (λ e. cc) h.1)

  join-onto_first : (c : ℕ) (ps : List Str) → ps ≢ [] → join sep (onto_first c ps) ≡ c ∷ join sep ps
  unfolding join
  join-onto_first c [] n = absurd (n refl)
  join-onto_first c (p ∷ []) n = refl
  join-onto_first c (p ∷ q ∷ ps) n = refl

  pub split-ne-nil : (s : Str) → split sep s ≢ []
  unfolding split
  split-ne-nil [] e = cc
  split-ne-nil (c ∷ s) e = ground (arith, split-ne-nil s)

  join_front : (ps : List Str) → ps ≢ [] → join sep ([] ∷ ps) ≡ sep ∷ join sep ps
  unfolding join
  join_front [] n = absurd (n refl)
  join_front (p ∷ ps) n = refl

  -- Joining the parts of a text gives it back.
  pub join-split : (s : Str) → join sep (split sep s) ≡ s
  unfolding split
  join-split [] = unfold join in refl
  join-split (c ∷ s) = ground (
    arith,
    join-split s,
    split-ne-nil s,
    join_front (split sep s),
    join-onto_first c (split sep s),
  )

starts_with-take : (p s : Str) → starts_with p s ≡ true → take (length p) s ≡ p
starts_with-take [] s h = refl
starts_with-take (a ∷ p) [] h = cc
starts_with-take (a ∷ p) (c ∷ s) h = ground (arith, starts_with-take p s)

-- Where `indexOf` finds a text, the text stands.
pub take-index_of : (p s : Str) (i : ℕ) → index_of p s ≡ some i → take (length p) (drop i s) ≡ p
unfolding index_of
take-index_of [] s i h = refl
take-index_of (a ∷ p) [] i h = cc
take-index_of (a ∷ p) (c ∷ s) i h = elim (Bool-cases (starts_with (a ∷ p) (c ∷ s))) [
  | inl here ↦ let e : 0 ≡ i = ground arith in rw (← e) (starts_with-take (a ∷ p) (c ∷ s) here)
  | inr later ↦ elim (Option-cases (index_of (a ∷ p) s)) [
    | inl missing ↦ ground arith
    | inr (k, found) ↦
        let e : suc k ≡ i = ground arith in rw (← e) (take-index_of (a ∷ p) s k found)
  ]
]

pub substring_le : (a b : ℕ) (s : Str) → a ≤ b → substring a b s ≡ take (b - a) (drop a s)
substring_le a b s h = ground arith

lacks_start-take : (p s : Str) (n : ℕ) → starts_with p s ≡ false → starts_with p (take n s) ≡ false
lacks_start-take [] s n h = cc
lacks_start-take (p ∷ ps) [] zero h = refl
lacks_start-take (p ∷ ps) [] (suc n) h = refl
lacks_start-take (p ∷ ps) (c ∷ s) zero h = refl
lacks_start-take (p ∷ ps) (c ∷ s) (suc n) h = ground (arith, lacks_start-take ps s n)

-- What stands before the first match has none.
pub index_of-take :
    (p s : Str) (i : ℕ) → p ≢ [] → index_of p s ≡ some i → index_of p (take i s) ≡ none
unfolding index_of
index_of-take [] s i n h = absurd (n refl)
index_of-take (p ∷ ps) [] i n h = cc
index_of-take (p ∷ ps) (c ∷ s) zero n h = refl
index_of-take (p ∷ ps) (c ∷ s) (suc i) n h =
    ground (arith, index_of-take (p ∷ ps) s i n, lacks_start-take (p ∷ ps) (c ∷ s) (suc i))
