-- ===== src/Toc/Tests.antt =====
-- Runs of the plugin (toc.js) on small pages.
use sbt_example.Toc.Anchor.Clashes.{AreAlike, generate_id_iff}
use sbt_example.Toc.Numbering.Repeats.{add_numeration_again}
use sbt_example.Common.{
  ℕ, ◌≡◌, refl, Str, units, Bool, none, some, List, [], ◌∷◌, map, arith, same, if◌then◌else◌, ◌↔◌,
}
use sbt_example.Js.Text.{index_of, is_found}
use sbt_example.Toc.Outline.{link, empty, leaf, wrapper, append_to_toc, entry_of}
use sbt_example.Toc.Outline.{
  check_container, last_below, append_list, is_no_list, append_leaf, ensure_list, in_last, descend,
}
use sbt_example.Toc.Outline.Depths.{outline}
use sbt_example.Toc.Numbering.{
  counter, update_numeration, update_from, add_numeration, shown_from, dotted,
}
use sbt_example.Js.Decimal.{decimal, digits_from}
use sbt_example.Toc.Numbering.Counts.{numbered, count, while_at_least, counter-numbered}
use sbt_example.Toc.Anchor.{generate_id}
use sbt_example.Toc.Build.{
  Heading, Options, State, defaults, mentions, selected, is_selected, build_toc, indexes,
  indexes_from, visit_levels, visit, visit_numbered, list_heading, numerate_heading, give_id,
  lacks_id, shown_id,
}
use sbt_example.Toc.Build.Entries.{as_entry, build_toc-IsShown}
use sbt_example.Toc.Build.Distinct.{
  SkipsNoLevel, legal_numbers, with_numbers, AreOrdered, levels, build_toc-AreOrdered,
}
use sbt_example.Toc.Build.Visited.{build_toc-identity, build_toc-numbered, identity, numbered_texts}

-- A matcher for the two selectors of the defaults: all headings, and tags in a list.
matches_tags : Str → Heading → Bool
unfolding same mentions is_found index_of
matches_tags selector h =
    if same selector (units " :header") then Bool.true else mentions h.level selector

abbrev heading : ℕ → ℕ → Str → Heading
heading n level text = record { node = n; level = level; id = none; text = text }

abbrev page : List Heading
page =
    heading 0 1 (units "Akka")
    ∷ heading 1 2 (units "A b")
    ∷ heading 2 4 (units "C")
    ∷ heading 3 3 (units "D")
    ∷ record (heading 4 2 (units "E")) { id = some (units "e1") }
    ∷ []

abbrev numbering : Options
numbering = record defaults { numerate = Bool.true }

built : Options → List Heading → State
unfolding build_toc selected is_selected matches_tags indexes indexes_from visit_levels visit
    visit_numbered list_heading numerate_heading give_id lacks_id shown_id mentions is_found
    index_of generate_id entry_of append_to_toc descend append_leaf ensure_list in_last
    check_container last_below append_list is_no_list counter update_numeration update_from
    add_numeration shown_from dotted decimal digits_from
built = build_toc matches_tags

plain_page :
    (built defaults page).toc
    ≡ leaf (link (units "A_b") (units "A b")) (
        wrapper
          (wrapper
            (leaf (link (units "C") (units "C")) empty)
            (leaf (link (units "D") (units "D")) empty))
          (leaf (link (units "e1") (units "E")) empty))
unfolding built
plain_page = refl

-- Where a level is skipped, two headings get the same number.
numbered_page :
    map (λ h. h.text) (built numbering page).visited
    ≡ units "1. A b" ∷ units "1.1. C" ∷ units "1.1. D" ∷ units "2. E" ∷ []
unfolding built
numbered_page = refl

build_toc-IsShown_example :
    let st = build_toc matches_tags defaults page in
    outline 1 st.toc ≡ map (as_entry (indexes defaults page)) st.visited
build_toc-IsShown_example = build_toc-IsShown matches_tags defaults page (omega arith)

build_toc-identity_example :
    map (λ h. (h.node, h.level, h.id)) (build_toc matches_tags defaults page).visited
    ≡ map (identity defaults) (selected matches_tags defaults page)
build_toc-identity_example =
    build_toc-identity matches_tags defaults page (omega arith)
      ((λ e. cc), ((λ e. cc), ((λ e. cc), ((λ e. cc), ((λ e. cc), tt)))))

build_toc-numbered_example :
    map (λ h. h.text) (build_toc matches_tags numbering page).visited
    ≡ numbered_texts numbering [] (selected matches_tags numbering page)
build_toc-numbered_example = build_toc-numbered matches_tags numbering page (omega arith) refl

counter-numbered_example :
    counter (numbered (3 ∷ 3 ∷ 2 ∷ 3 ∷ [])) 3 ≡ count 3 (while_at_least 3 (3 ∷ 3 ∷ 2 ∷ 3 ∷ []))
counter-numbered_example = counter-numbered (3 ∷ 3 ∷ 2 ∷ 3 ∷ []) 3 (omega arith) (omega arith)

-- A page that skips no level below its first ones.
abbrev steady : List Heading
steady =
    heading 0 2 (units "A")
    ∷ heading 1 3 (units "B")
    ∷ heading 2 3 (units "C")
    ∷ heading 3 2 (units "D")
    ∷ heading 4 3 (units "E")
    ∷ []

levels-steady : levels (selected matches_tags numbering steady) ≡ 2 ∷ 3 ∷ 3 ∷ 2 ∷ 3 ∷ []
unfolding selected is_selected matches_tags
levels-steady = refl

numbered_steady :
    map (λ h. h.text) (built numbering steady).visited
    ≡ units "1. A" ∷ units "1.1. B" ∷ units "1.2. C" ∷ units "2. D" ∷ units "2.1. E" ∷ []
unfolding built
numbered_steady = refl

steady_lem : SkipsNoLevel 1 1 (levels (selected matches_tags numbering steady))
steady_lem = rw levels-steady (omega arith)

build_toc-AreOrdered_example :
    let nums = legal_numbers 1 [] (levels (selected matches_tags numbering steady)) in
    (map (λ h. h.text) (build_toc matches_tags numbering steady).visited
      ≡ with_numbers nums (selected matches_tags numbering steady))
    × AreOrdered nums
build_toc-AreOrdered_example =
    build_toc-AreOrdered matches_tags numbering steady 1 (omega arith) (omega arith) refl steady_lem

-- Behind a heading h2, a heading h4 and the heading h3 that follows are both 1.1.
add_numeration_again_example :
    add_numeration
      (update_numeration (update_numeration (0 ∷ 1 ∷ 0 ∷ 0 ∷ 0 ∷ 0 ∷ []) 4) 3)
      3
      (units "Actors")
    ≡ add_numeration (update_numeration (0 ∷ 1 ∷ 0 ∷ 0 ∷ 0 ∷ 0 ∷ []) 4) 4 (units "Actors")
add_numeration_again_example =
    add_numeration_again (0 ∷ 1 ∷ 0 ∷ 0 ∷ 0 ∷ 0 ∷ []) 3 (units "Actors") (omega arith) refl refl

generate_id_iff_example :
    generate_id (units "Actor (1)") ≡ generate_id (units "Actor.<1>")
    ↔ AreAlike (units "Actor (1)") (units "Actor.<1>")
generate_id_iff_example = generate_id_iff (units "Actor (1)") (units "Actor.<1>")
