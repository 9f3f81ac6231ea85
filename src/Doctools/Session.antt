-- ===== src/Doctools/Session.antt =====
-- doctools.js: a page from the moment it is ready: `init` has run, and its timer and the clicks of
-- the reader come in any order.
pub mod Laws
mod Tests
use sbt_example.Common.{ℕ, ◌<◌, ◌≡◌, Str, Outcome, ok}
use sbt_example.Doctools.IndexTable.{click}
use sbt_example.Doctools.Search.{Page, init, run_timers, hide_search_words}

abbrev pub press : ℕ → Page → Page
press i page = record page { table = click i page.table }

module _ (select : Str → Outcome (Unit {0})) (fold : ℕ → ℕ) where
  -- The timer fires, the reader follows the link that hides the matches, if there is one, or clicks
  -- the button at position `i` of the index.
  pub data Step : Page → Page → Type 0 where
    fires : (page : Page) → Step page (run_timers fold page)
    hides : (page : Page) → 0 < page.links → Step page (hide_search_words page)
    presses : (page : Page) (i : ℕ) → Step page (press i page)

  -- The pages that a loaded page comes to.
  pub data Reach (loaded : Page) : Page → Type 0 where
    opens : {page : Page} → init select loaded ≡ ok page → Reach loaded page
    next : {page after : Page} → Reach loaded page → Step page after → Reach loaded after
