-- ===== src/Site/Tests.antt =====
-- Runs of contentsFix.js and highlightCode.js.
use sbt_example.Common.{
  ◌≡◌, refl, Str, units, same, Bool, true, false, List, [], ◌∷◌, none, ◌↔◌, ◌⊎◌, inr, arith,
}
use sbt_example.Toc.Outline.{empty, leaf, wrapper, plain}
use sbt_example.Js.Text.{is_found, index_of}
use sbt_example.Toc.Numbering.{counter, no_headings, update_numeration, update_from}
use sbt_example.Toc.Build.{
  Heading, Options, build_toc, selected, is_selected, indexes, indexes_from, mentions,
}
use sbt_example.Doctools.Query.{listed}
use sbt_example.Site.{
  has_no_items, holds_empty, hides_title, add_class, mark_code, mark_codes, highlight_code,
}
use sbt_example.Site.Contents.{hides_title_iff, leaves_gap}

hidden_without_headings : hides_title empty ≡ true
unfolding hides_title has_no_items
hidden_without_headings = refl

hidden_with_gap : hides_title (leaf (plain []) (wrapper empty empty)) ≡ true
unfolding hides_title has_no_items holds_empty
hidden_with_gap = refl

-- No heading is excluded.
abbrev header_only : Str → Heading → Bool
header_only s h = same s (units " :header")

abbrev numbered : Options
numbered = record { exclude = []; context = []; auto_id = true; numerate = true }

-- The item of the first heading gets a list for the second, which is of a higher rank and does
-- not go into it.
abbrev rising : List Heading
rising =
    record { node = 1; level = 3; id = none; text = units "Actors" }
    ∷ record { node = 2; level = 2; id = none; text = units "Mailboxes" }
    ∷ []

hides_title_iff_example : (hides_title (build_toc header_only numbered rising).toc ≡ true) ↔ (
    (selected header_only numbered rising ≡ [])
    ⊎ ((true ≡ true)
        × (leaves_gap (indexes numbered rising) no_headings 0 (selected header_only numbered rising)
            ≡ true)))
hides_title_iff_example =
    hides_title_iff header_only numbered rising
      ((omega arith, omega arith), ((omega arith, omega arith), tt))

title_hidden : hides_title (build_toc header_only numbered rising).toc ≡ true
unfolding selected is_selected same indexes indexes_from mentions is_found index_of leaves_gap
    counter update_numeration update_from
title_hidden = hides_title_iff_example.1 (inr (refl, refl))

marks :
    highlight_code false ((units "linenums" ∷ []) ∷ [])
    ≡ (((units "linenums" ∷ units "prettyprint" ∷ units "lang-scala" ∷ []) ∷ []), true)
unfolding highlight_code mark_codes mark_code add_class listed same
marks = refl
