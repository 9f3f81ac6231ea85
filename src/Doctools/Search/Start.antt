-- ===== src/Doctools/Search/Start.antt =====
-- What `init` (doctools.js) does when a page is ready, and when it gets through.
use mathlib.Core.HLevel.{Unit-prop}
use mathlib.Core.Path.{subst}
use sbt_example.Common.{
  ◌+◌, ◌≡◌, ◌≢◌, ◌↔◌, ◌⊎◌, refl, ap, sym, ◌∙◌, Str, none, List, [], ◌∷◌, ◌++◌, Outcome, ok, throw,
  Exception, bind_inv, bind_throws, arith, inl, inr,
}
use sbt_example.Doctools.Query.{Params, query_parameters}
use sbt_example.Doctools.IndexTable.{init_index_table}
use sbt_example.Doctools.Search.{
  Page, terms_of, body_selector, schedule, highlight_search_words, fix_firefox_anchor_bug, init,
}

module _ (select : Str → Outcome (Unit {0})) where
  -- The search of the page can be scheduled: it has no terms, or the body's selector is accepted.
  abbrev pub IsSearchable : List Str → Type 0
  IsSearchable terms = (terms ≡ []) ⊎ (select body_selector ≡ ok tt)

  schedule_ok :
      (terms : List Str) (page : Page)
      → IsSearchable terms
      → (next : Page) × (schedule select terms page ≡ ok next)
  unfolding schedule
  schedule_ok [] page h = (page, refl)
  schedule_ok (t ∷ terms) page (inl h) = absurd (cc)
  schedule_ok (t ∷ terms) page (inr h) =
      (record page { links = page.links + 1; waiting = page.waiting ++ (t ∷ terms) ∷ [] }, rw h)

  schedule_inv :
      (terms : List Str) (page next : Page)
      → schedule select terms page ≡ ok next
      → IsSearchable terms
        × (next.body ≡ page.body)
        × (next.table ≡ page.table)
        × (next.collapse_index ≡ page.collapse_index)
  unfolding schedule
  schedule_inv [] page next h =
      let kept : page ≡ next = ground arith in
      (
        inl refl,
        sym (ap (λ (p : Page). p.body) kept),
        sym (ap (λ (p : Page). p.table) kept),
        sym (ap (λ (p : Page). p.collapse_index) kept),
      )
  schedule_inv (t ∷ terms) page next h =
      let (found, accepted, h') = bind_inv (select body_selector) _ h in
      (inr (accepted ∙ ap ok (Unit-prop found tt)), ground arith, ground arith, ground arith)

  -- What `init` needs: a query that can be read, and a search that can be scheduled.
  abbrev pub IsReady : Page → Type 0
  IsReady page =
      (params : Params) × (query_parameters none page.search ≡ ok params)
      × IsSearchable (terms_of params)

  fixed_search : (page : Page) → (fix_firefox_anchor_bug page).search ≡ page.search
  unfolding fix_firefox_anchor_bug
  fixed_search page = ground arith

  fixed_page :
      (page : Page)
      → ((fix_firefox_anchor_bug page).body ≡ page.body)
        × ((fix_firefox_anchor_bug page).table ≡ page.table)
        × ((fix_firefox_anchor_bug page).collapse_index ≡ page.collapse_index)
  unfolding fix_firefox_anchor_bug
  fixed_page page = ground arith

  -- `init` returns exactly when the page's query can be read and its search, if it has terms,
  -- finds its selector accepted.
  pub init_iff : (page : Page) → ((next : Page) × (init select page ≡ ok next)) ↔ IsReady page
  unfolding init highlight_search_words
  init_iff page = (
    λ (next, h).
        let (marked, h', _) =
          bind_inv (highlight_search_words select (fix_firefox_anchor_bug page)) _ h in
        let (params, read, h'') =
          bind_inv (query_parameters none (fix_firefox_anchor_bug page).search) _ h' in
        (
          params,
          ap (query_parameters none) (sym (fixed_search page)) ∙ read,
          (schedule_inv (terms_of params) (fix_firefox_anchor_bug page) marked h'').0,
        ),
    λ (params, read, searchable).
        let (marked, done) =
          schedule_ok (terms_of params) (fix_firefox_anchor_bug page) searchable in
        let read' = ap (query_parameters none) (fixed_search page) ∙ read in
        (
          record marked { table = init_index_table marked.collapse_index marked.table },
          rw (read', done),
        ),
  )

  -- Where `init` returns, the index table is set up and the body is as before: the search waits for
  -- its timer.
  pub init_lem :
      (page next : Page)
      → init select page ≡ ok next
      → (next.table ≡ init_index_table page.collapse_index page.table) × (next.body ≡ page.body)
  unfolding init highlight_search_words
  init_lem page next h =
      let (marked, h', e) =
        bind_inv (highlight_search_words select (fix_firefox_anchor_bug page)) _ h in
      let (params, read, h'') =
        bind_inv (query_parameters none (fix_firefox_anchor_bug page).search) _ h' in
      let (_, body, table, collapse) =
        schedule_inv (terms_of params) (fix_firefox_anchor_bug page) marked h'' in
      let (body', table', collapse') = fixed_page page in (ground arith, ground arith)

  schedule_throws :
      (terms : List Str) (page : Page) (e : Exception)
      → terms ≢ []
      → select body_selector ≡ throw e
      → schedule select terms page ≡ throw e
  unfolding schedule
  schedule_throws [] page e n h = absurd (n refl)
  schedule_throws (t ∷ terms) page e n h = rw h

  schedule_throws_inv :
      (terms : List Str) (page : Page) (e : Exception)
      → schedule select terms page ≡ throw e
      → (terms ≢ []) × (select body_selector ≡ throw e)
  unfolding schedule
  schedule_throws_inv [] page e h = cc
  schedule_throws_inv (t ∷ terms) page e h = elim (bind_throws (select body_selector) _ h) [
    | inl refused ↦ ((λ n. cc), refused)
    | inr (found, accepted, h') ↦ cc
  ]

  -- What stops `init` with an exception: a query that cannot be read, or a selector that is not
  -- accepted, if there are terms.
  abbrev pub IsStopped : Page → Exception → Type 0
  IsStopped page e =
      (query_parameters none page.search ≡ throw e)
      ⊎ ((params : Params) × (query_parameters none page.search ≡ ok params)
          × (terms_of params ≢ [])
          × (select body_selector ≡ throw e))

  search_throws_inv :
      (page : Page) (e : Exception)
      → highlight_search_words select page ≡ throw e
      → IsStopped page e
  unfolding highlight_search_words
  search_throws_inv page e h = elim (bind_throws (query_parameters none page.search) _ h) [
    | inl malformed ↦ inl malformed
    | inr (params, read, h') ↦
        let (some_terms, refused) = schedule_throws_inv (terms_of params) page e h' in
        inr (params, read, some_terms, refused)
  ]

  -- `init` stops with an exception exactly if the query of the address cannot be read and raises
  -- it, or if the query can be read, has terms, and the body's selector raises it.
  pub init_throws_iff :
      (page : Page) (e : Exception) → (init select page ≡ throw e) ↔ IsStopped page e
  unfolding init highlight_search_words
  init_throws_iff page e = (
    λ h. elim (bind_throws (highlight_search_words select (fix_firefox_anchor_bug page)) _ h) [
      | inl stopped ↦
          subst (λ s. IsStopped (record page { search = s }) e) (fixed_search page)
            (search_throws_inv (fix_firefox_anchor_bug page) e stopped)
      | inr (marked, _, h') ↦ cc
    ],
    λ why. elim why [
      | inl h ↦ rw (ap (query_parameters none) (fixed_search page) ∙ h)
      | inr (params, read, n, refused) ↦ rw (
        ap (query_parameters none) (fixed_search page) ∙ read,
        schedule_throws (terms_of params) (fix_firefox_anchor_bug page) e n refused,
      )
    ],
  )
