-- ===== src/Site/Contents.antt =====
-- The list that toc.js builds, as contentsFix.js finds it.
use mathlib.Core.List.{foldl}
use mathlib.Core.Path.{subst}
use sbt_example.Common.{
  ℕ, ◌-◌, ◌≡◌, ◌<◌, refl, sym, ap, ◌∙◌, Bool, true, false, List, [], ◌∷◌, All, ◌↔◌, Str, ◌⊎◌, inl,
  inr, ◌&&◌, ◌||◌, ◌==◌, leb, ltb, max, arith, if◌then◌else◌,
}
use sbt_example.Toc.Outline.{Entry, Ul, empty, append_to_toc, check_container}
use sbt_example.Toc.Numbering.{Counters, no_headings, counter, update_numeration}
use sbt_example.Toc.Build.{
  Heading, Options, State, indexes, list_heading, numerate_heading, visit, visit_numbered,
  visit_levels, selected, build_toc,
}
use sbt_example.Toc.Build.Entries.{IsHeading, level-give_id, visit_levels-visit, selected-IsHeading}
use sbt_example.Site.Gaps.{tip, tip-descend, tip_ne}
use sbt_example.Site.Gaps.Rounds.{IsClosed, holds_empty-appended, holds_empty-checked}
use sbt_example.Site.{has_no_items, holds_empty, hides_title}

-- Whether headings that are numbered leave a list without items, by the counters before them and
-- the depth of the entry before them: a heading does whose level has no counter yet and that does
-- not stand deeper than the one before.
unfoldable pub leaves_gap : List ℕ → Counters → ℕ → List Heading → Bool
leaves_gap ixs headers depth [] = false
leaves_gap ixs headers depth (h ∷ hs) =
    (counter headers h.level == 0 && leb (max 1 (counter ixs h.level)) depth)
    || leaves_gap ixs (update_numeration headers h.level) (max 1 (counter ixs h.level)) hs

-- What a round makes of the list, where headings are numbered or not.
abbrev IsNext : Bool → List ℕ → State → Heading → State → Type 0
IsNext numbered ixs st h next =
    (tip next.toc ≡ max 1 (counter ixs h.level))
    × (holds_empty next.toc ≡ (
        holds_empty st.toc
        || (numbered
            && (counter st.headers h.level == 0
                && leb (max 1 (counter ixs h.level)) (tip st.toc)))))
    × (next.headers ≡ (if numbered then update_numeration st.headers h.level else st.headers))

tip-append_to_toc :
    (toc : Ul) (index : ℕ) (e : Entry) → tip (append_to_toc toc index e) ≡ max 1 index
unfolding append_to_toc
tip-append_to_toc toc index e = omega (arith, tip-descend (index - 1) e toc)

holds_empty-append_to_toc :
    (toc : Ul) (index : ℕ) (e : Entry)
    → IsClosed toc
    → holds_empty (append_to_toc toc index e) ≡ holds_empty toc
unfolding append_to_toc
holds_empty-append_to_toc toc index e closed = holds_empty-appended (index - 1) e toc closed

spoils :
    (new before : Bool) (index depth : ℕ)
    → (if new && ltb (index - 1) depth then true else before)
      ≡ (before || (new && leb (max 1 index) depth))
spoils new before index depth = ground arith

holds_empty-append_to_toc_checked :
    (header : ℕ) (toc : Ul) (index : ℕ) (e : Entry)
    → IsClosed toc
    → holds_empty (append_to_toc (check_container header toc) index e)
      ≡ (holds_empty toc || (header == 0 && leb (max 1 index) (tip toc)))
unfolding append_to_toc
holds_empty-append_to_toc_checked header toc index e closed =
    holds_empty-checked header (index - 1) e toc closed
    ∙ spoils (header == 0) (holds_empty toc) index (tip toc)

module _ (opts : Options) (ixs : List ℕ) (st : State) (h : Heading) (closed : IsClosed st.toc) where
  visit_numbered-IsNext : IsNext true ixs st h (visit_numbered opts ixs st h)
  unfolding visit_numbered list_heading numerate_heading
  visit_numbered-IsNext = (
    tip-append_to_toc _ _ _ ∙ ap (λ l. max 1 (counter ixs l)) (level-give_id opts h),
    holds_empty-append_to_toc_checked (counter st.headers h.level) st.toc _ _ closed
        ∙ ap
            (λ l.
              holds_empty st.toc
              || (counter st.headers h.level == 0 && leb (max 1 (counter ixs l)) (tip st.toc)))
            (level-give_id opts h),
    refl,
  )

  list_heading-IsNext : IsNext false ixs st h (list_heading opts ixs st h)
  unfolding list_heading
  list_heading-IsNext =
      (tip-append_to_toc _ _ _, holds_empty-append_to_toc st.toc _ _ closed ∙ ground arith, refl)

  visit_by :
      (numbered : Bool)
      → IsNext numbered ixs st h
          (if numbered then visit_numbered opts ixs st h else list_heading opts ixs st h)
  visit_by true = visit_numbered-IsNext
  visit_by false = list_heading-IsNext

  visit-IsNext : IsNext opts.numerate ixs st h (visit opts ixs st h)
  unfolding visit
  visit-IsNext = visit_by opts.numerate

-- The gaps that further headings leave, where headings are numbered.
abbrev gaps_later : Bool → List ℕ → State → List Heading → Bool
gaps_later numbered ixs st hs =
    holds_empty st.toc || (numbered && leaves_gap ixs st.headers (tip st.toc) hs)

abbrev no_heading : List Heading → Bool
no_heading [] = true
no_heading (h ∷ hs) = false

gaps-round :
    (numbered : Bool) (ixs : List ℕ) (st next : State) (h : Heading) (hs : List Heading)
    → IsNext numbered ixs st h next
    → gaps_later numbered ixs next hs ≡ gaps_later numbered ixs st (h ∷ hs)
unfolding leaves_gap
gaps-round true ixs st next h hs (deep, gap, counted) = rw (counted, deep, gap) (ground arith)
gaps-round false ixs st next h hs (deep, gap, counted) = rw gap (ground arith)

visit_levels-IsNext :
    (opts : Options) (ixs : List ℕ) (st : State) (h : Heading)
    → IsHeading h
    → IsClosed st.toc
    → IsNext opts.numerate ixs st h (visit_levels 6 opts ixs st h)
visit_levels-IsNext opts ixs st h (low, high) closed =
    subst (IsNext opts.numerate ixs st h) (sym (visit_levels-visit 6 opts ixs st h low high))
      (visit-IsNext opts ixs st h closed)

holds_empty-visits :
    (opts : Options) (ixs : List ℕ) (hs : List Heading) (st : State)
    → All IsHeading hs
    → 0 < tip st.toc
    → let done = foldl (visit_levels 6 opts ixs) st hs in
      (0 < tip done.toc) × (holds_empty done.toc ≡ gaps_later opts.numerate ixs st hs)
unfolding leaves_gap
holds_empty-visits opts ixs [] st p some_entry = (some_entry, ground arith)
holds_empty-visits opts ixs (h ∷ hs) st (p, ps) some_entry =
    let next = visit_levels 6 opts ixs st h in
    let step = visit_levels-IsNext opts ixs st h p (inr some_entry) in
    let (more, ih) = holds_empty-visits opts ixs hs next ps (omega (arith, step.0)) in
    (more, ih ∙ gaps-round opts.numerate ixs st next h hs step)

hides_title-visits :
    (opts : Options) (ixs : List ℕ) (hs : List Heading)
    → All IsHeading hs
    → let start : State = record { headers = no_headings; toc = empty; visited = [] } in
      hides_title (foldl (visit_levels 6 opts ixs) start hs).toc
      ≡ (no_heading hs || (opts.numerate && leaves_gap ixs no_headings 0 hs))
unfolding hides_title has_no_items holds_empty tip leaves_gap
hides_title-visits opts ixs [] p = refl
hides_title-visits opts ixs (h ∷ hs) (p, ps) =
    let start : State = record { headers = no_headings; toc = empty; visited = [] } in
    let next = visit_levels 6 opts ixs start h in
    let step = visit_levels-IsNext opts ixs start h p (inl refl) in
    let (more, ends) = holds_empty-visits opts ixs hs next ps (omega (arith, step.0)) in
    ap (λ b. b || holds_empty (foldl (visit_levels 6 opts ixs) next hs).toc)
      (tip_ne (foldl (visit_levels 6 opts ixs) next hs).toc more)
    ∙ ends
    ∙ gaps-round opts.numerate ixs start next h hs step

read_off :
    {hidden : Bool} (hs : List Heading) (numbered gap : Bool)
    → hidden ≡ (no_heading hs || (numbered && gap))
    → (hidden ≡ true) ↔ ((hs ≡ []) ⊎ ((numbered ≡ true) × (gap ≡ true)))
read_off [] numbered gap e = ((λ _. inl refl), (λ _. e))
read_off (h ∷ hs) true true e = ((λ _. inr (refl, refl)), (λ _. e))
read_off (h ∷ hs) true false e =
    ((λ hidden. cc), (λ why. elim why [ inl nothing ↦ cc | inr (_, gap) ↦ cc ]))
read_off (h ∷ hs) false gap e =
    ((λ hidden. cc), (λ why. elim why [ inl nothing ↦ cc | inr (numbered, _) ↦ cc ]))

module _ (matches : Str → Heading → Bool) where
  -- On a page whose headings have levels from 1 to 6, contentsFix.js hides the title of the
  -- contents exactly if the plugin has selected no heading or, with `numerate`, a selected heading
  -- of a level that had none since the last one of a higher rank stands in the list no deeper than
  -- the one before it.
  pub hides_title_iff :
      (opts : Options) (page : List Heading)
      → All IsHeading page
      → (hides_title (build_toc matches opts page).toc ≡ true) ↔ (
          (selected matches opts page ≡ [])
          ⊎ ((opts.numerate ≡ true)
              × (leaves_gap (indexes opts page) no_headings 0 (selected matches opts page) ≡ true)))
  unfolding build_toc
  hides_title_iff opts page p = read_off (selected matches opts page) opts.numerate _ (
      hides_title-visits opts (indexes opts page) (selected matches opts page)
        (selected-IsHeading matches opts page p))
