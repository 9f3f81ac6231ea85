-- ===== src/Toc/Build.antt =====
-- toc.js: the plugin's function, `$.fn.toc`, over the headings of a page.
pub mod Entries
pub mod Visited
pub mod Distinct
pub mod Ranks
use mathlib.Core.List.{foldl}
use sbt_example.Common.{
  ℕ, zero, suc, ◌+◌, Str, units, Bool, true, false, not, ◌&&◌, ◌||◌, Option, none, some, List, [],
  ◌∷◌, ◌++◌, ◌==◌, ltb, if◌then◌else◌, any,
}
use sbt_example.Js.Text.{index_of, is_found}
use sbt_example.Toc.Outline.{Ul, empty, check_container, append_to_toc, entry_of}
use sbt_example.Toc.Numbering.{Counters, no_headings, update_numeration, add_numeration, counter}
use sbt_example.Toc.Anchor.{generate_id}

-- A heading element: which node it is, the digit of its tag, its `id` attribute and its text.
pub record Heading : Type 0 where
  pub node : ℕ
  pub level : ℕ
  pub id : Option Str
  pub text : Str

pub record Options : Type 0 where
  pub exclude : Str
  pub context : Str
  pub auto_id : Bool
  pub numerate : Bool

-- `$.fn.toc.defaults`.
abbrev pub defaults : Options
defaults = record { exclude = units "h1, h5, h6"; context = []; auto_id = true; numerate = false }

-- `!$this.attr('id')`: the attribute is missing or empty.
unfoldable pub lacks_id : Option Str → Bool
lacks_id none = true
lacks_id (some []) = true
lacks_id (some (c ∷ id)) = false

-- `exclude.match(new RegExp('h' + i, 'i'))`, over the digit of a level.
unfoldable pub mentions : ℕ → Str → Bool
mentions i exclude =
    is_found (index_of (b'h' ∷ (b'0' + i) ∷ []) exclude)
    || is_found (index_of (b'H' ∷ (b'0' + i) ∷ []) exclude)

-- The loop that fills `indexes`, from the level `i` on for the rounds that are left.
unfoldable pub indexes_from : ℕ → ℕ → ℕ → Options → List Heading → List ℕ
indexes_from zero i index opts page = []
indexes_from (suc n) i index opts page =
    let listed = not (mentions i opts.exclude) && any (λ h. h.level == i) page in
    (if listed then index + 1 else 0)
    ∷ indexes_from n (suc i) (if listed then index + 1 else index) opts page

unfoldable pub indexes : Options → List Heading → List ℕ
indexes opts page = indexes_from 6 1 0 opts page

-- What the plugin changes: the counters, the list, and the headings, in the order visited.
pub record State : Type 0 where
  pub headers : Counters
  pub toc : Ul
  pub visited : List Heading

-- `$this.attr('id', generateId($this.text()))`, where there is none.
unfoldable pub give_id : Options → Heading → Heading
give_id opts h =
    if opts.auto_id && lacks_id h.id then record h { id = some (generate_id h.text) } else h

-- The branch under `opts.numerate`.
unfoldable pub numerate_heading : Options → Counters → Heading → Heading
numerate_heading opts headers h =
    let named = give_id opts h in record named { text = add_numeration headers h.level named.text }

-- An `id` attribute that is missing is written out as "undefined".
unfoldable pub shown_id : Option Str → Str
shown_id none = units "undefined"
shown_id (some id) = id

-- The end of a round: `appendToTOC`.
unfoldable pub list_heading : Options → List ℕ → State → Heading → State
list_heading opts ixs st h =
    let named = give_id opts h in
    record st {
      toc = append_to_toc st.toc (counter ixs h.level) (entry_of (shown_id named.id) named.text);
      visited = st.visited ++ named ∷ [];
    }

-- The round of a heading where headings are numbered.
unfoldable pub visit_numbered : Options → List ℕ → State → Heading → State
visit_numbered opts ixs st h =
    let headers = update_numeration st.headers h.level in
    list_heading opts ixs
      (record st { headers = headers; toc = check_container (counter st.headers h.level) st.toc })
      (numerate_heading opts headers h)

-- The body under `if ($this.is('h' + i))`.
unfoldable pub visit : Options → List ℕ → State → Heading → State
visit opts ixs st h =
    if opts.numerate then visit_numbered opts ixs st h else list_heading opts ixs st h

-- The loop over `i` from 6 down to 1; an element has one tag.
unfoldable pub visit_levels : ℕ → Options → List ℕ → State → Heading → State
visit_levels zero opts ixs st h = st
visit_levels (suc i) opts ixs st h =
    visit_levels i opts ixs (if h.level == suc i then visit opts ixs st h else st) h

-- jQuery's test of an element against a selector.
module _ (matches : Str → Heading → Bool) where
  unfoldable pub is_selected : Options → Heading → Bool
  is_selected opts h = matches (opts.context ++ units " :header") h && not (matches opts.exclude h)

  -- `$(opts.context + ' :header').not(opts.exclude)`.
  unfoldable pub selected : Options → List Heading → List Heading
  selected opts [] = []
  selected opts (h ∷ page) =
      if is_selected opts h then h ∷ selected opts page else selected opts page

  -- The run over one container, which holds the new empty list.
  unfoldable pub build_toc : Options → List Heading → State
  build_toc opts page =
      foldl (visit_levels 6 opts (indexes opts page))
        (record { headers = no_headings; toc = empty; visited = [] }) (selected opts page)
