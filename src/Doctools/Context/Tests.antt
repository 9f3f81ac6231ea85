-- ===== src/Doctools/Context/Tests.antt =====
-- The links that `addContextElements` (doctools.js) adds to a small page.
use sbt_example.Common.{◌≡◌, refl, Str, units, same, [], ◌∷◌, ok, map, ◌↔◌}
use sbt_example.Doctools.Query.{inherits, listed}
use sbt_example.Doctools.Catalog.{documentation, gettext, translation}
use sbt_example.Doctools.Context.{
  Anchored, Context, add_link, add_links, add_first, add_context_elements,
}
use sbt_example.Doctools.Context.Laws.{linked, first_linked, AreLinked, add_context_elements_iff}

abbrev anchored : Str → Anchored
anchored id = record { id = id; permalinks = [] }

abbrev page : Context
page = record {
  headings = anchored [] ∷ anchored (units "actors") ∷ [];
  terms = anchored (units "a") ∷ anchored (units "b") ∷ [];
}

abbrev headline : Str
headline = units "Permalink to this headline"

abbrev definition : Str
definition = units "Permalink to this definition"

abbrev page_linked : Context
page_linked = record {
  headings = linked headline (anchored []) ∷ anchored (units "actors") ∷ [];
  terms = linked definition (anchored (units "a")) ∷ linked definition (anchored (units "b")) ∷ [];
}

-- The second heading gets none, and that of the first leads nowhere.
run : add_context_elements documentation page ≡ ok page_linked
unfolding add_context_elements add_first add_links add_link gettext translation inherits listed same
run = refl

add_context_elements_iff_example : (add_context_elements documentation page ≡ ok page_linked) ↔ (
    AreLinked first_linked (gettext documentation headline) page.headings page_linked.headings
    × AreLinked
        (λ t. map (linked t))
        (gettext documentation definition)
        page.terms
        page_linked.terms)
add_context_elements_iff_example = add_context_elements_iff documentation page page_linked
