-- ===== src/Doctools/Search/Laws.antt =====
-- The search of a page from `init` to `hideSearchWords` (doctools.js).
use mathlib.Core.Path.{ap₂}
use mathlib.Core.List.{foldl}
use sbt_example.Common.{
  ℕ, ◌≡◌, refl, sym, ◌∙◌, Str, units, Bool-cases, if_both, false, List, [], ◌∷◌, map, All, inl, inr,
  append-nil,
}
use sbt_example.Js.Text.{is_space, onto_first}
use sbt_example.Doctools.Highlight.{Node, text, element, other, highlight, height}
use sbt_example.Doctools.Highlight.Content.{content, highlight-contents}
use sbt_example.Doctools.Highlight.Unmark.{unmark, IsUnmarked, unmark-IsUnmarked, content-unmark}
use sbt_example.Doctools.Search.{
  starts_space, split_spaces, Page, element_of, highlight_text_in, highlight_terms, run_timers,
  hide_search_words,
}

onto_first-All :
    (P : ℕ → Type 0) (c : ℕ) (ps : List Str) → P c → All (All P) ps → All (All P) (onto_first c ps)
onto_first-All P c [] p h = ((p, tt), tt)
onto_first-All P c (q ∷ ps) p (h, hs) = ((p, h), hs)

-- No term holds a space.
pub split_spaces-words : (s : Str) → All (All (λ c. is_space c ≡ false)) (split_spaces s)
unfolding split_spaces
split_spaces-words [] = (tt, tt)
split_spaces-words (c ∷ s) = elim (Bool-cases (is_space c)) [
  | inl space ↦ rw space (
      if_both (All (All (λ d. is_space d ≡ false))) (starts_space s) (split_spaces s)
        ([] ∷ split_spaces s) (split_spaces-words s) (tt, split_spaces-words s))
  | inr word ↦
      rw word
        (onto_first-All (λ d. is_space d ≡ false) c (split_spaces s) word (split_spaces-words s))
]

-- jQuery's sets hold elements here.
abbrev pub IsElement : Node → Type 0
IsElement (text val) = ⊥
IsElement (element tag classes ns) = Unit
IsElement other = ⊥

map-content :
    (f : Node → Node)
    → ((n : Node) → IsElement n → (content (f n) ≡ content n) × IsElement (f n))
    → (ns : List Node) → All IsElement ns
    → (map content (map f ns) ≡ map content ns) × All IsElement (map f ns)
map-content f keeps [] h = (refl, tt)
map-content f keeps (n ∷ ns) (h, hs) =
    let (here, still) = keeps n h in
    let (later, stills) = map-content f keeps ns hs in
    (ap₂ (λ a b. a ∷ b) here later, (still, stills))

module _ (fold : ℕ → ℕ) where
  -- An element stays one element when it is searched.
  element_of-content :
      (term class_name : Str) (n : Node)
      → IsElement n
      → (content (element_of n (highlight fold term class_name (height n) false n)) ≡ content n)
        × IsElement (element_of n (highlight fold term class_name (height n) false n))
  unfolding highlight height content
  element_of-content term class_name (text val) h = elim h [ ]
  element_of-content term class_name other h = elim h [ ]
  element_of-content term class_name (element tag classes ns) h = (
    sym (append-nil _)
        ∙ highlight-contents fold term class_name (height (element tag classes ns)) false
            (element tag classes ns),
    tt,
  )

  highlight_text_in-content :
      (term class_name : Str) (body : List Node)
      → All IsElement body
      → (map content (highlight_text_in fold term class_name body) ≡ map content body)
        × All IsElement (highlight_text_in fold term class_name body)
  unfolding highlight_text_in
  highlight_text_in-content term class_name = map-content _ (element_of-content term class_name)

  pub highlight_terms-content :
      (terms : List Str) (body : List Node)
      → All IsElement body
      → (map content (highlight_terms fold terms body) ≡ map content body)
        × All IsElement (highlight_terms fold terms body)
  unfolding highlight_terms
  highlight_terms-content [] body h = (refl, h)
  highlight_terms-content (t ∷ terms) body h =
      let (same_text, still) =
        highlight_text_in-content (map fold t) (units "highlighted") body h in
      let (rest_text, rest) = highlight_terms-content terms _ still in (rest_text ∙ same_text, rest)

  pub waiting-content :
      (waiting : List (List Str)) (body : List Node)
      → All IsElement body
      → map content (foldl (λ b ts. highlight_terms fold ts b) body waiting) ≡ map content body
  waiting-content [] body h = refl
  waiting-content (ts ∷ waiting) body h =
      let (same_text, still) = highlight_terms-content ts body h in
      waiting-content waiting _ still ∙ same_text

  pub hide-content :
      (body : List Node)
      → (map content (map (unmark (units "highlighted")) body) ≡ map content body)
        × All (IsUnmarked (units "highlighted")) (map (unmark (units "highlighted")) body)
  hide-content [] = (refl, tt)
  hide-content (n ∷ body) =
      let (same_text, clean) = hide-content body in
      (
        ap₂ (λ a b. a ∷ b) (content-unmark (units "highlighted") n) same_text,
        (unmark-IsUnmarked (units "highlighted") n, clean),
      )

  -- Let the body be a list of elements. When all waiting searches have run and the reader has
  -- hidden their matches, the body reads as before, no span is marked, no link to hide them is
  -- left and no search waits.
  pub hide_search_words-run_timers :
      (page : Page)
      → All IsElement page.body
      → let after = hide_search_words (run_timers fold page) in
        (map content after.body ≡ map content page.body)
        × All (IsUnmarked (units "highlighted")) after.body
        × (after.links ≡ 0)
        × (after.waiting ≡ [])
  unfolding hide_search_words run_timers
  hide_search_words-run_timers page h =
      let body = foldl (λ b ts. highlight_terms fold ts b) page.body page.waiting in
      (
        (hide-content body).0 ∙ waiting-content page.waiting page.body h,
        (hide-content body).1,
        refl,
        refl,
      )
