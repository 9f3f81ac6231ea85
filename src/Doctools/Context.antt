-- ===== src/Doctools/Context.antt =====
-- doctools.js: `addContextElements`, the links of headings and definitions to themselves.
pub mod Laws
mod Tests
use sbt_example.Common.{
  Str, units, Option, none, some, List, [], ◌∷◌, ◌++◌, Outcome, ok, throw, type_error, ◌>>=◌,
}
use sbt_example.Doctools.Catalog.{Documentation, gettext}

pub record Permalink : Type 0 where
  pub href : Str
  pub title : Str

-- A heading or a `dt` by its own `id`, which is empty where it has none, and the links at its end.
pub record Anchored : Type 0 where
  pub id : Str
  pub permalinks : List Permalink

-- The headings that stand directly in a `div` with an id, and the `dt` elements with an id, in the
-- order of the document.
pub record Context : Type 0 where
  pub headings : List Anchored
  pub terms : List Anchored

-- One round: `attr('title', undefined)` reads the attribute, so that what follows it is called on
-- `undefined`.
unfoldable pub add_link : Option Str → Anchored → Outcome Anchored
add_link none x = throw type_error
add_link (some title) x =
    ok (record x { permalinks = x.permalinks ++ record { href = b'#' ∷ x.id; title = title } ∷ [] })

unfoldable pub add_links : Option Str → List Anchored → Outcome (List Anchored)
add_links title [] = ok []
add_links title (x ∷ xs) = do
  linked ← add_link title x
  more ← add_links title xs
  ok (linked ∷ more)

-- `:first` leaves one element of the whole selection.
unfoldable pub add_first : Option Str → List Anchored → Outcome (List Anchored)
add_first title [] = ok []
add_first title (x ∷ xs) = do linked ← add_link title x; ok (linked ∷ xs)

unfoldable pub add_context_elements : Documentation → Context → Outcome Context
add_context_elements doc c = do
  headings ← add_first (gettext doc (units "Permalink to this headline")) c.headings
  terms ← add_links (gettext doc (units "Permalink to this definition")) c.terms
  ok (record { headings = headings; terms = terms })
