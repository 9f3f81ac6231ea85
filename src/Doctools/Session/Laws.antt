-- ===== src/Doctools/Session/Laws.antt =====
-- What holds of a page (doctools.js) whatever the order in which its timer and its reader act.
use mathlib.Core.List.{foldl}
use sbt_example.Common.{
  ℕ, ◌+◌, ◌≤◌, ◌<◌, ◌≡◌, refl, ap, ◌∙◌, Str, units, none, List, [], ◌∷◌, map, All, Outcome, ok,
  bind_inv, arith,
}
use sbt_example.Doctools.Query.{query_parameters}
use sbt_example.Doctools.Highlight.{Node, text, element, other}
use sbt_example.Doctools.Highlight.Content.{content}
use sbt_example.Doctools.Highlight.Unmark.{unmark, IsUnmarked}
use sbt_example.Doctools.IndexTable.Groups.{AreDistinct}
use sbt_example.Doctools.IndexTable.Collapse.{IsUnfolded}
use sbt_example.Doctools.Search.{
  Page, body_selector, highlight_terms, terms_of, schedule, highlight_search_words,
  fix_firefox_anchor_bug, init, run_timers, hide_search_words,
}
use sbt_example.Doctools.IndexTable.Started.{IsOrderly, click-IsOrderly, init_index_table-IsOrderly}
use sbt_example.Doctools.Search.Laws.{
  IsElement, highlight_terms-content, waiting-content, hide-content, hide_search_words-run_timers,
}
use sbt_example.Doctools.Search.Start.{init_lem}
use sbt_example.Doctools.Session.{Step, fires, hides, presses, Reach, opens, next}

-- A page as it is loaded: its body is a list of elements, nothing was searched, and the buttons of
-- its index have distinct numbers and the minus icon, over visible rows.
pub record IsLoaded (page : Page) : Type 0 where
  pub elements : All IsElement page.body
  pub no_links : page.links ≡ 0
  pub distinct : AreDistinct page.table.togglers
  pub unfolded : All (IsUnfolded page.table.rows) page.table.togglers

-- A page that was loaded with the body `body`.
pub record IsSound (body : List Node) (page : Page) : Type 0 where
  pub elements : All IsElement page.body
  pub reads : map content page.body ≡ map content body
  pub one_link : page.links ≤ 1
  pub orderly : IsOrderly page.table

waiting-elements :
    (fold : ℕ → ℕ) (waiting : List (List Str)) (body : List Node)
    → All IsElement body
    → All IsElement (foldl (λ b ts. highlight_terms fold ts b) body waiting)
waiting-elements fold [] body h = h
waiting-elements fold (ts ∷ waiting) body h =
    waiting-elements fold waiting _ (highlight_terms-content fold ts body h).1

unmark-IsElement : (name : Str) (n : Node) → IsElement n → IsElement (unmark name n)
unfolding unmark
unmark-IsElement name (text val) h = h
unmark-IsElement name (element tag classes ns) h = tt
unmark-IsElement name other h = h

hidden-elements :
    (name : Str) (body : List Node) → All IsElement body → All IsElement (map (unmark name) body)
hidden-elements name [] h = tt
hidden-elements name (n ∷ body) (h, hs) = (unmark-IsElement name n h, hidden-elements name body hs)

module _ (select : Str → Outcome (Unit {0})) (fold : ℕ → ℕ) where
  Step-IsSound :
      {page after : Page} (body : List Node)
      → Step select fold page after
      → IsSound body page
      → IsSound body after
  unfolding run_timers hide_search_words
  Step-IsSound body (fires page) h = record {
    elements = waiting-elements fold page.waiting page.body h.elements;
    reads = waiting-content fold page.waiting page.body h.elements ∙ h.reads;
    one_link = h.one_link;
    orderly = h.orderly;
  }
  Step-IsSound body (hides page shown) h = record {
    elements = hidden-elements (units "highlighted") page.body h.elements;
    reads = (hide-content fold page.body).0 ∙ h.reads;
    one_link = omega arith;
    orderly = h.orderly;
  }
  Step-IsSound body (presses page i) h = record {
    elements = h.elements;
    reads = h.reads;
    one_link = h.one_link;
    orderly = click-IsOrderly i page.table h.orderly;
  }

  schedule-links :
      (terms : List Str) (page after : Page)
      → schedule select terms page ≡ ok after
      → after.links ≤ page.links + 1
  unfolding schedule
  schedule-links [] page after e = ground arith
  schedule-links (t ∷ terms) page after e =
      let (_, _, e') = bind_inv (select body_selector) _ e in ground arith

  init-links : (page after : Page) → init select page ≡ ok after → after.links ≤ page.links + 1
  unfolding init highlight_search_words fix_firefox_anchor_bug
  init-links page after e =
      let (marked, e', kept) =
        bind_inv (highlight_search_words select (fix_firefox_anchor_bug page)) _ e in
      let (params, read, e'') =
        bind_inv (query_parameters none (fix_firefox_anchor_bug page).search) _ e' in
      let more = schedule-links (terms_of params) (fix_firefox_anchor_bug page) marked e'' in
      ground arith

  init-IsSound :
      (loaded page : Page)
      → IsLoaded loaded
      → init select loaded ≡ ok page
      → IsSound loaded.body page
  init-IsSound loaded page h e =
      let (table, body) = init_lem select loaded page e in
      let more = init-links loaded page e in
      let none_yet = h.no_links in
      record {
        elements = rw body h.elements;
        reads = ap (map content) body;
        one_link = omega arith;
        orderly =
            rw table
              (init_index_table-IsOrderly loaded.collapse_index loaded.table h.distinct h.unfolded);
      }

  -- Whatever the timer and the reader do, and in whatever order, a page that was loaded stays in
  -- order: its body reads as when it was loaded, it has at most one link that hides the matches, and
  -- the buttons of its index have distinct numbers and are in step with the rows of their groups.
  pub Reach-IsSound :
      (loaded page : Page)
      → IsLoaded loaded
      → Reach select fold loaded page
      → IsSound loaded.body page
  Reach-IsSound loaded page h (opens e) = init-IsSound loaded page h e
  Reach-IsSound loaded page h (next {page = before} r step) =
      Step-IsSound loaded.body step (Reach-IsSound loaded before h r)

  -- A page that reads as `body`, in which no span is marked, no link to hide matches is left and no
  -- search waits.
  abbrev pub IsClean : List Node → Page → Type 0
  IsClean body page =
      (map content page.body ≡ map content body)
      × All (IsUnmarked (units "highlighted")) page.body
      × (page.links ≡ 0)
      × (page.waiting ≡ [])

  -- Wherever a loaded page has come to, as long as a link that hides the matches is left, the page
  -- can come to one without marks: there no span is marked, no link is left, no search waits, the
  -- body reads as when it was loaded, and the index is as it was.
  pub Reach-IsClean :
      (loaded page : Page)
      → IsLoaded loaded
      → Reach select fold loaded page
      → 0 < page.links
      → (after : Page) × Reach select fold loaded after
        × IsClean loaded.body after
        × (after.table ≡ page.table)
  unfolding run_timers hide_search_words
  Reach-IsClean loaded page h r link =
      let sound = Reach-IsSound loaded page h r in
      let (reads, clean, no_link, idle) = hide_search_words-run_timers fold page sound.elements in
      (
        hide_search_words (run_timers fold page),
        next (next r (fires page)) (hides (run_timers fold page) link),
        (reads ∙ sound.reads, clean, no_link, idle),
        refl,
      )
