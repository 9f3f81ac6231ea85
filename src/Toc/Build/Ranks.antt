-- ===== src/Toc/Build/Ranks.antt =====
-- The depths at which the plugin (toc.js) lists the levels of headings.
use mathlib.Core.Path.{subst}
use sbt_example.Common.{
  ℕ, zero, suc, ◌+◌, ◌-◌, ap, ◌≤◌, ◌<◌, ◌≡◌, refl, sym, ◌∙◌, Str, Bool, true, false, not, ◌&&◌,
  List, [], ◌∷◌, map, arith, All, any, ◌==◌, if◌then◌else◌, Bool-cases, inl, inr,
}
use sbt_example.Toc.Outline.Depths.{outline}
use sbt_example.Toc.Numbering.{counter}
use sbt_example.Toc.Build.{Heading, Options, mentions, indexes_from, indexes, build_toc}
use sbt_example.Toc.Build.Entries.{IsHeading, as_entry, build_toc-IsShown}

regroup :
    (b c : Bool) (index x : ℕ)
    → (if c then (if b then index + 1 else index) + x else 0)
      ≡ (if c then index + ((if b then 1 else 0) + x) else 0)
regroup true true index x = omega arith
regroup false true index x = omega arith
regroup true false index x = refl
regroup false false index x = refl

no_offset : (b : Bool) (x : ℕ) → (if b then 0 + x else 0) ≡ (if b then x else 0)
no_offset true x = omega arith
no_offset false x = refl

-- The levels of a page under some options.
module _ (opts : Options) (page : List Heading) where
  -- A level is listed if the options do not exclude it and the page has a heading of it.
  abbrev pub is_listed : ℕ → Bool
  is_listed l = not (mentions l opts.exclude) && any (λ h. h.level == l) page

  -- The number of listed levels among the `k` levels from `i` on.
  abbrev pub listed_from : ℕ → ℕ → ℕ
  listed_from i zero = 0
  listed_from i (suc k) = (if is_listed i then 1 else 0) + listed_from (suc i) k

  counter-indexes_from :
      (n i index k : ℕ)
      → k < n
      → counter (indexes_from n i index opts page) (suc k)
        ≡ (if is_listed (i + k) then index + listed_from i (suc k) else 0)
  unfolding indexes_from counter
  counter-indexes_from zero i index k h = absurd (omega arith)
  counter-indexes_from (suc n) i index zero h =
      let here : i + 0 ≡ i = omega arith in rw here (ground arith)
  counter-indexes_from (suc n) i index (suc k) h =
      let shift : suc i + k ≡ i + suc k = omega arith in
      let ih =
        counter-indexes_from n (suc i) (if is_listed i then index + 1 else index) k (omega arith) in
      rw (← shift)
        (ih ∙ regroup (is_listed i) (is_listed (suc i + k)) index (listed_from (suc i) (suc k)))

  listed_from_le : (i k : ℕ) → listed_from i k ≤ k
  listed_from_le i zero = omega arith
  listed_from_le i (suc k) = ground (arith, listed_from_le (suc i) k)

  -- The last level of a range.
  listed_from-last :
      (i k : ℕ) → listed_from i (suc k) ≡ listed_from i k + (if is_listed (i + k) then 1 else 0)
  listed_from-last i zero = let here : i + 0 ≡ i = omega arith in rw here (omega arith)
  listed_from-last i (suc k) =
      let shift : suc i + k ≡ i + suc k = omega arith in
      rw (← shift) (omega (arith, listed_from-last (suc i) k))

  listed_from_mono : (i k j : ℕ) → listed_from i k ≤ listed_from i (j + k)
  listed_from_mono i k zero =
      let e : k ≡ 0 + k = omega arith in
      subst (λ m. listed_from i k ≤ listed_from i m) e (omega arith)
  listed_from_mono i k (suc j) =
      let e : suc (j + k) ≡ suc j + k = omega arith in
      subst (λ m. listed_from i k ≤ listed_from i m) e
        (omega (arith, listed_from_mono i k j, listed_from-last i (j + k)))

  -- The index of a level from 1 to 6 is the number of listed levels up to it, and 0 if the level
  -- is not listed itself.
  pub counter-indexes :
      (l : ℕ)
      → 0 < l
      → l ≤ 6
      → counter (indexes opts page) l ≡ (if is_listed l then listed_from 1 l else 0)
  unfolding indexes
  counter-indexes zero p h = absurd (omega arith)
  counter-indexes (suc k) p h =
      let shift : 1 + k ≡ suc k = omega arith in
      subst
        (λ l.
          counter (indexes_from 6 1 0 opts page) (suc k)
          ≡ (if is_listed l then listed_from 1 (suc k) else 0))
        shift
        (counter-indexes_from 6 1 0 k h ∙ no_offset (is_listed (1 + k)) (listed_from 1 (suc k)))

  -- Of two listed levels the lower in rank has the greater index, so that its headings are listed
  -- deeper.
  pub indexes_order :
      (l m : ℕ)
      → 0 < l
      → l < m
      → m ≤ 6
      → is_listed l ≡ true
      → is_listed m ≡ true
      → counter (indexes opts page) l < counter (indexes opts page) m
  indexes_order l zero p h k listed listed' = absurd (omega arith)
  indexes_order l (suc m) p h k listed listed' =
      let gap : m - l + l ≡ m = omega arith in
      let up : listed_from 1 l ≤ listed_from 1 m =
        subst (λ n. listed_from 1 l ≤ listed_from 1 n) gap (listed_from_mono 1 l (m - l)) in
      let shift : 1 + m ≡ suc m = omega arith in
      let step : listed_from 1 (suc m) ≡ listed_from 1 m + 1 =
        listed_from-last 1 m
        ∙ ap (λ b. listed_from 1 m + (if b then 1 else 0)) (ap is_listed shift ∙ listed') in
      let low =
        counter-indexes l p (omega arith) ∙ ap (λ b. if b then listed_from 1 l else 0) listed in
      let high =
        counter-indexes (suc m) (omega arith) k
        ∙ ap (λ b. if b then listed_from 1 (suc m) else 0) listed' in
      omega arith

  indexes_from_le :
      (n i index top : ℕ) → index + n ≤ top → All (λ x. x ≤ top) (indexes_from n i index opts page)
  unfolding indexes_from
  indexes_from_le zero i index top h = tt
  indexes_from_le (suc n) i index top h = elim (Bool-cases (is_listed i)) [
    | inl e ↦ rw e (omega arith, indexes_from_le n (suc i) (index + 1) top (omega arith))
    | inr e ↦ rw e (omega arith, indexes_from_le n (suc i) index top (omega arith))
  ]

counter_le : (top : ℕ) (ixs : List ℕ) (l : ℕ) → All (λ x. x ≤ top) ixs → counter ixs l ≤ top
unfolding counter
counter_le top [] l h = omega arith
counter_le top (x ∷ ixs) zero h = omega arith
counter_le top (x ∷ ixs) (suc zero) (h, hs) = h
counter_le top (x ∷ ixs) (suc (suc l)) (h, hs) = counter_le top ixs (suc l) hs

as_entry_depth :
    (ixs : List ℕ) (hs : List Heading)
    → All (λ x. x ≤ 6) ixs
    → All (λ p. (1 ≤ p.0) × (p.0 ≤ 6)) (map (as_entry ixs) hs)
as_entry_depth ixs [] h = tt
as_entry_depth ixs (x ∷ hs) h =
    let small = counter_le 6 ixs x.level h in ((omega arith, omega arith), as_entry_depth ixs hs h)

module _ (matches : Str → Heading → Bool) (opts : Options) (page : List Heading) where
  -- On a page whose headings have levels from 1 to 6, every entry of the built list stands below
  -- at least one and at most six lists.
  pub build_toc-depths :
      All IsHeading page
      → All (λ p. (1 ≤ p.0) × (p.0 ≤ 6)) (outline 1 (build_toc matches opts page).toc)
  unfolding indexes
  build_toc-depths p =
      subst (λ l. All (λ q. (1 ≤ q.0) × (q.0 ≤ 6)) l) (sym (build_toc-IsShown matches opts page p))
        (as_entry_depth (indexes opts page) (build_toc matches opts page).visited
          (indexes_from_le opts page 6 1 0 6 (omega arith)))
