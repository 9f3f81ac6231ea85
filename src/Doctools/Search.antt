-- ===== src/Doctools/Search.antt =====
-- doctools.js: `highlightText`, `highlightSearchWords`, `hideSearchWords`, `fixFirefoxAnchorBug`
-- and `init`, over the state of a page.
pub mod Laws
pub mod Start
pub mod Terms
mod Tests
use mathlib.Core.List.{foldl}
use sbt_example.Common.{
  ℕ, suc, ◌+◌, Str, units, Bool, true, false, not, ◌&&◌, ◌||◌, Option, none, some, List, [], ◌∷◌,
  ◌++◌, map, ◌==◌, leb, if◌then◌else◌, Outcome, ok, throw, ◌>>=◌,
}
use sbt_example.Js.Text.{is_space, onto_first}
use sbt_example.Doctools.Query.{Params, own, query_parameters}
use sbt_example.Doctools.Highlight.{Node, Nodes, nil, cons, highlight, height}
use sbt_example.Doctools.Highlight.Unmark.{unmark}
use sbt_example.Doctools.IndexTable.{Table, init_index_table}

abbrev pub starts_space : Str → Bool
starts_space [] = false
starts_space (c ∷ s) = is_space c

-- `s.split(/\s+/)`: a run of spaces separates two parts.
unfoldable pub split_spaces : Str → List Str
split_spaces [] = [] ∷ []
split_spaces (c ∷ s) =
    let parts = split_spaces s in
    if is_space c then (if starts_space s then parts else [] ∷ parts) else onto_first c parts

-- The address bar, the elements that the search box selects by the text of the selector, the
-- links that were added to the menu, the searches that wait for their timer, and the index table.
pub record Page : Type 0 where
  pub search : Str
  pub hash : Bool
  pub mozilla : Bool
  pub body : List Node
  pub links : ℕ
  pub waiting : List (List Str)
  pub reloads : ℕ
  pub collapse_index : Bool
  pub table : Table

-- `parts[0].split(/\s+/)` of the parameter `highlight`, if there is one.
unfoldable pub terms_of : Params → List Str
terms_of params = elim (own (units "highlight") params) [
  | none ↦ []
  | some [] ↦ []
  | some (h ∷ hs) ↦ split_spaces h
]

-- The text of the selector, as it stands in the file.
abbrev pub body_selector : Str
body_selector = units "http://www.gtan.com/akka_doc/_static/div.body"

-- The address is assigned anew ten milliseconds later.
unfoldable pub fix_firefox_anchor_bug : Page → Page
fix_firefox_anchor_bug page =
    if page.hash && page.mozilla then record page { reloads = page.reloads + 1 } else page

-- jQuery's `$(selector)`, which may throw.
module _ (select : Str → Outcome (Unit {0})) where
  -- The terms wait for the timer, and the link to hide them is appended.
  unfoldable pub schedule : List Str → Page → Outcome Page
  schedule [] page = ok page
  schedule (t ∷ terms) page = do
    found ← select body_selector
    ok (record page { links = page.links + 1; waiting = page.waiting ++ (t ∷ terms) ∷ [] })

  unfoldable pub highlight_search_words : Page → Outcome Page
  highlight_search_words page = do
    params ← query_parameters none page.search
    schedule (terms_of params) page

  -- `Documentation.init`.
  unfoldable pub init : Page → Outcome Page
  init page = do
    marked ← highlight_search_words (fix_firefox_anchor_bug page)
    ok (record marked { table = init_index_table marked.collapse_index marked.table })

-- `jQuery.fn.highlightText` on the elements of a set: an element stays one element.
abbrev pub element_of : Node → Nodes → Node
element_of n nil = n
element_of n (cons m ms) = m

-- `toLowerCase` on the units.
module _ (fold : ℕ → ℕ) where
  unfoldable pub highlight_text_in : Str → Str → List Node → List Node
  highlight_text_in term class_name =
      map (λ n. element_of n (highlight fold term class_name (height n) false n))

  -- The timer's function: each term in lower case, one after the other.
  unfoldable pub highlight_terms : List Str → List Node → List Node
  highlight_terms terms body =
      foldl (λ b t. highlight_text_in (map fold t) (units "highlighted") b) body terms

  unfoldable pub run_timers : Page → Page
  run_timers page = record page {
    body = foldl (λ b ts. highlight_terms ts b) page.body page.waiting;
    waiting = [];
  }

-- The links fade out, and no span keeps the class.
unfoldable pub hide_search_words : Page → Page
hide_search_words page = record page {
  links = 0;
  body = map (unmark (units "highlighted")) page.body;
}
