-- ===== src/Toc/Build/Entries.antt =====
-- The entries of the list that the plugin (toc.js) builds.
use mathlib.Core.Path.{subst}
use mathlib.Core.List.{foldl, map-append}
use sbt_example.Common.{
  ℕ, zero, suc, ◌≤◌, ◌<◌, ◌≡◌, refl, sym, ◌∙◌, Str, Bool, List, [], ◌∷◌, map, arith, max, All,
  if_both, Bool-cases, inl, inr, ◌==◌,
}
use sbt_example.Toc.Outline.{Entry, entry_of}
use sbt_example.Toc.Outline.Depths.{outline, outline-append_to_toc, outline-check_container}
use sbt_example.Toc.Numbering.{counter}
use sbt_example.Toc.Build.{
  Heading, Options, State, give_id, shown_id, indexes, list_heading, visit, visit_numbered,
  visit_levels, selected, is_selected, build_toc,
}

-- A heading element by its tag.
abbrev pub IsHeading : Heading → Type 0
IsHeading h = (0 < h.level) × (h.level ≤ 6)

-- The loop over the six tags meets the heading's own tag once.
visit_levels-above :
    (n : ℕ) (opts : Options) (ixs : List ℕ) (st : State) (h : Heading)
    → n < h.level
    → visit_levels n opts ixs st h ≡ st
unfolding visit_levels
visit_levels-above zero opts ixs st h p = refl
visit_levels-above (suc i) opts ixs st h p =
    ground (arith, visit_levels-above i opts ixs st h (omega arith))

pub visit_levels-visit :
    (n : ℕ) (opts : Options) (ixs : List ℕ) (st : State) (h : Heading)
    → 0 < h.level
    → h.level ≤ n
    → visit_levels n opts ixs st h ≡ visit opts ixs st h
unfolding visit_levels
visit_levels-visit zero opts ixs st h p q = absurd (omega arith)
visit_levels-visit (suc i) opts ixs st h p q = elim (Bool-cases (h.level == suc i)) [
  | inl here ↦ rw here (visit_levels-above i opts ixs (visit opts ixs st h) h (ground arith))
  | inr lower ↦ rw lower (visit_levels-visit i opts ixs st h p (ground arith))
]

-- The depth and the entry of a visited heading.
abbrev pub as_entry : List ℕ → Heading → ℕ × Entry
as_entry ixs h = (max 1 (counter ixs h.level), entry_of (shown_id h.id) h.text)

-- The list shows the visited headings.
abbrev pub IsShown : List ℕ → State → Type 0
IsShown ixs st = outline 1 st.toc ≡ map (as_entry ixs) st.visited

pub level-give_id : (opts : Options) (h : Heading) → (give_id opts h).level ≡ h.level
unfolding give_id
level-give_id opts h = ground arith

list_heading-IsShown :
    (opts : Options) (ixs : List ℕ) (st : State) (h : Heading)
    → IsShown ixs st
    → IsShown ixs (list_heading opts ixs st h)
unfolding list_heading
list_heading-IsShown opts ixs st h inv =
    outline-append_to_toc st.toc _ _ ∙ rw (map-append, inv, level-give_id opts h)

visit-IsShown :
    (opts : Options) (ixs : List ℕ) (st : State) (h : Heading)
    → IsShown ixs st
    → IsShown ixs (visit opts ixs st h)
unfolding visit visit_numbered
visit-IsShown opts ixs st h inv =
    if_both (IsShown ixs) opts.numerate _ _
      (list_heading-IsShown opts ixs _ _ (outline-check_container 1 _ st.toc ∙ inv))
      (list_heading-IsShown opts ixs st h inv)

visits-IsShown :
    (opts : Options) (ixs : List ℕ) (hs : List Heading) (st : State)
    → All IsHeading hs
    → IsShown ixs st
    → IsShown ixs (foldl (visit_levels 6 opts ixs) st hs)
visits-IsShown opts ixs [] st p inv = inv
visits-IsShown opts ixs (h ∷ hs) st ((low, high), ps) inv =
    visits-IsShown opts ixs hs (visit_levels 6 opts ixs st h) ps (
      subst (IsShown ixs) (sym (visit_levels-visit 6 opts ixs st h low high))
        (visit-IsShown opts ixs st h inv))

module _ (matches : Str → Heading → Bool) where
  pub selected-IsHeading :
      (opts : Options) (page : List Heading)
      → All IsHeading page
      → All IsHeading (selected matches opts page)
  unfolding selected
  selected-IsHeading opts [] p = tt
  selected-IsHeading opts (h ∷ page) (p, ps) =
      if_both (All IsHeading) (is_selected matches opts h) (h ∷ selected matches opts page)
        (selected matches opts page) (p, selected-IsHeading opts page ps)
        (selected-IsHeading opts page ps)

  -- On a page whose headings have levels from 1 to 6, the built list shows each visited heading
  -- once, in the order visited, with its anchor and its text, below as many lists as the index of
  -- its level says (one, where the index is 0).
  pub build_toc-IsShown :
      (opts : Options) (page : List Heading)
      → All IsHeading page
      → let st = build_toc matches opts page in
        outline 1 st.toc ≡ map (as_entry (indexes opts page)) st.visited
  unfolding build_toc outline
  build_toc-IsShown opts page p =
      visits-IsShown opts (indexes opts page) (selected matches opts page) _
        (selected-IsHeading opts page p) refl
