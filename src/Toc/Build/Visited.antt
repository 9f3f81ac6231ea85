-- ===== src/Toc/Build/Visited.antt =====
-- The ids and the texts of headings after a run of the plugin (toc.js).
use mathlib.Core.Path.{ap₂}
use mathlib.Core.List.{foldl}
use sbt_example.Common.{
  ℕ, ◌≡◌, ◌≢◌, refl, ap, sym, ◌∙◌, Str, Bool, true, false, Option, some, List, [], ◌∷◌, ◌++◌, map,
  arith, All, append_assoc, append-nil, if◌then◌else◌, if_both, ◌&&◌,
}
use sbt_example.Toc.Numbering.{Counters, no_headings, update_numeration, add_numeration}
use sbt_example.Toc.Numbering.Counts.{numbered}
use sbt_example.Toc.Anchor.{generate_id}
use sbt_example.Toc.Build.{
  Heading, Options, State, lacks_id, give_id, indexes, numerate_heading, list_heading, visit,
  visit_numbered, visit_levels, selected, is_selected, build_toc,
}
use sbt_example.Toc.Build.Entries.{IsHeading, visit_levels-visit, selected-IsHeading}

module _ (opts : Options) where
  -- The counters behind a heading, and the heading as it is left.
  abbrev next_headers : Counters → Heading → Counters
  next_headers cs h = if opts.numerate then update_numeration cs h.level else cs

  abbrev finished : Counters → Heading → Heading
  finished cs h = give_id opts (if opts.numerate then numerate_heading opts cs h else h)

  abbrev results : Counters → List Heading → List Heading
  results cs [] = []
  results cs (h ∷ hs) = finished (next_headers cs h) h ∷ results (next_headers cs h) hs

  visit-visited :
      (ixs : List ℕ) (st : State) (h : Heading)
      → ((visit opts ixs st h).visited ≡ st.visited ++ finished (next_headers st.headers h) h ∷ [])
        × ((visit opts ixs st h).headers ≡ next_headers st.headers h)
  unfolding visit visit_numbered list_heading
  visit-visited ixs st h = ground arith

  visits-visited :
      (ixs : List ℕ) (hs : List Heading) (st : State)
      → All IsHeading hs
      → (foldl (visit_levels 6 opts ixs) st hs).visited ≡ st.visited ++ results st.headers hs
  visits-visited ixs [] st p = sym (append-nil st.visited)
  visits-visited ixs (h ∷ hs) st ((low, high), ps) =
      let here = visit_levels-visit 6 opts ixs st h low high in
      let (seen, counted) = visit-visited ixs st h in
      visits-visited ixs hs (visit_levels 6 opts ixs st h) ps
      ∙ rw (here, seen, counted) (append_assoc st.visited _ _)

  -- With numbers switched on, a heading's text is put behind the numbers of the headings so far.
  abbrev pub numbered_texts : List ℕ → List Heading → List Str
  numbered_texts past [] = []
  numbered_texts past (h ∷ hs) =
      add_numeration (numbered (h.level ∷ past)) h.level h.text ∷ numbered_texts (h.level ∷ past) hs

  text-give_id : (h : Heading) → (give_id opts h).text ≡ h.text
  unfolding give_id
  text-give_id h = ground arith

  text-finished :
      (cs : Counters) (h : Heading)
      → opts.numerate ≡ true
      → (finished cs h).text ≡ add_numeration cs h.level h.text
  unfolding numerate_heading
  text-finished cs h on = text-give_id _ ∙ ground (arith, text-give_id h)

  text-results :
      (past : List ℕ) (hs : List Heading)
      → opts.numerate ≡ true
      → map (λ h. h.text) (results (numbered past) hs) ≡ numbered_texts past hs
  text-results past [] on = refl
  text-results past (h ∷ hs) on =
      let next : next_headers (numbered past) h ≡ numbered (h.level ∷ past) = ground arith in
      rw next (
        ap₂ (λ t l. t ∷ l) (text-finished (numbered (h.level ∷ past)) h on)
          (text-results (h.level ∷ past) hs on))

  generate_id-ne-nil : (text : Str) → text ≢ [] → lacks_id (some (generate_id text)) ≡ false
  unfolding generate_id lacks_id
  generate_id-ne-nil [] n = absurd (n refl)
  generate_id-ne-nil (c ∷ text) n = refl

  -- The id that a heading ends with is the one that it had, or one made of its text without the
  -- number.
  id-finished :
      (cs : Counters) (h : Heading)
      → h.text ≢ []
      → (finished cs h).id
        ≡ (if opts.auto_id && lacks_id h.id then some (generate_id h.text) else h.id)
  unfolding numerate_heading give_id
  id-finished cs h n = ground (arith, generate_id-ne-nil h.text n)

  -- The node, the level and the id of a heading when it has been visited.
  abbrev pub identity : Heading → ℕ × ℕ × Option Str
  identity h =
      (h.node, h.level, if opts.auto_id && lacks_id h.id then some (generate_id h.text) else h.id)

  node-finished :
      (cs : Counters) (h : Heading)
      → ((finished cs h).node ≡ h.node) × ((finished cs h).level ≡ h.level)
  unfolding numerate_heading give_id
  node-finished cs h = ground arith

  identity-results :
      (cs : Counters) (hs : List Heading)
      → All (λ h. h.text ≢ []) hs
      → map (λ h. (h.node, h.level, h.id)) (results cs hs) ≡ map identity hs
  identity-results cs [] p = refl
  identity-results cs (h ∷ hs) (p, ps) =
      let cs' = next_headers cs h in
      let (node, level) = node-finished cs' h in
      ap₂ (λ t l. t ∷ l) (ground (arith, node-finished cs' h, id-finished cs' h p))
        (identity-results cs' hs ps)

module _ (matches : Str → Heading → Bool) (opts : Options) (page : List Heading) where
  build_toc-results :
      All IsHeading page
      → (build_toc matches opts page).visited
        ≡ results opts no_headings (selected matches opts page)
  unfolding build_toc
  build_toc-results p =
      visits-visited opts (indexes opts page) (selected matches opts page) _
        (selected-IsHeading matches opts page p)

  selected-All :
      (P : Heading → Type 0) (hs : List Heading) → All P hs → All P (selected matches opts hs)
  unfolding selected
  selected-All P [] p = tt
  selected-All P (h ∷ hs) (p, ps) =
      if_both (All P) (is_selected matches opts h) (h ∷ selected matches opts hs)
        (selected matches opts hs) (p, selected-All P hs ps) (selected-All P hs ps)

  -- On a page whose headings have levels from 1 to 6 and texts that are not empty, every selected
  -- heading is visited once, in order; it keeps its id or, where it has none and `autoId` is set,
  -- gets one made of the text it then has.
  pub build_toc-identity :
      All IsHeading page
      → All (λ h. h.text ≢ []) page
      → map (λ h. (h.node, h.level, h.id)) (build_toc matches opts page).visited
        ≡ map (identity opts) (selected matches opts page)
  build_toc-identity p texts =
      ap (map (λ h. (h.node, h.level, h.id))) (build_toc-results p)
      ∙ identity-results opts no_headings (selected matches opts page)
          (selected-All (λ h. h.text ≢ []) page texts)

  -- On a page whose headings have levels from 1 to 6, with `numerate` set, the text of each
  -- visited heading is its text on the page behind the counters of the selected headings so far.
  pub build_toc-numbered :
      All IsHeading page
      → opts.numerate ≡ true
      → map (λ h. h.text) (build_toc matches opts page).visited
        ≡ numbered_texts opts [] (selected matches opts page)
  build_toc-numbered p on =
      ap (map (λ h. h.text)) (build_toc-results p)
      ∙ text-results opts [] (selected matches opts page) on
