-- ===== src/Doctools/Catalog/Laws.antt =====
-- `gettext` and `ngettext` (doctools.js) on catalogs.
use mathlib.Core.List.{foldl}
use sbt_example.Common.{
  ℕ, ◌≡◌, ◌↔◌, refl, Str, same, same_iff, false, Option, none, some, List, [], ◌∷◌, ◌==◌,
  if◌then◌else◌, ok, throw, type_error, All, units, ◌⊎◌, Bool-cases, sym, Option-cases, inl, inr,
  arith, ◌∙◌,
}
use sbt_example.Doctools.Query.{inherits}
use sbt_example.Doctools.Catalog.{
  Translation, Documentation, Catalog, translation, assign, assign_all, add_translations,
  first_form, gettext, ngettext, documentation, function_at, set_function, plural_form,
}

translation-assign :
    (j k : Str) (t : Translation) (ts : List (Str × Translation))
    → translation j (assign k t ts) ≡ (if same j k then some t else translation j ts)
unfolding translation assign
translation-assign j k t [] = refl
translation-assign j k t ((i, u) ∷ ts) =
    ground (arith, translation-assign j k t ts, same_iff j k, same_iff k i, same_iff j i)

-- The keys of an object are distinct.
abbrev pub AreKeys : List (Str × Translation) → Type 0
AreKeys [] = Unit
AreKeys ((k, t) ∷ ms) = (translation k ms ≡ none) × AreKeys ms

abbrev pub over : Option Translation → Option Translation → Option Translation
over none old = old
over (some t) old = some t

translation-assign_all :
    (j : Str) (ms ts : List (Str × Translation))
    → AreKeys ms
    → translation j (assign_all ms ts) ≡ over (translation j ms) (translation j ts)
unfolding translation assign_all
translation-assign_all j [] ts h = refl
translation-assign_all j ((k, t) ∷ ms) ts (fresh, h) = ground (
  arith,
  translation-assign_all j ms (assign k t ts) h,
  translation-assign j k t ts,
  same_iff j k,
)

-- After a catalog with distinct keys was added, its texts are translated by it and all others as
-- before.
pub gettext-add_translations :
    (catalog : Catalog) (doc : Documentation) (string : Str)
    → AreKeys catalog.messages
    → gettext (add_translations catalog doc) string ≡ elim (translation string catalog.messages) [
      | none ↦ gettext doc string
      | some t ↦ first_form t
    ]
unfolding gettext add_translations
gettext-add_translations catalog doc string h =
    ground (arith, translation-assign_all string catalog.messages doc.translations h)

-- The documentation after a number of catalogs.
abbrev pub with_catalogs : List Catalog → Documentation
with_catalogs catalogs = foldl (λ doc catalog. add_translations catalog doc) documentation catalogs

function_at-set_function :
    (j k : Str) (f : ℕ → ℕ) (fs : List (Str × (ℕ → ℕ)))
    → same j k ≡ false
    → function_at j (set_function k f fs) ≡ function_at j fs
unfolding function_at set_function
function_at-set_function j k f [] h = rw h refl
function_at-set_function j k f ((i, g) ∷ fs) h =
    ground (arith, function_at-set_function j k f fs h, same_iff j k, same_iff k i, same_iff j i)

misspelt : same (units "PLURALEXPR") (units "PLURAL_EXPR") ≡ false
unfolding same
misspelt = refl

-- A text has a translation exactly if a catalog has one.
abbrev pub AreMissing : Str → List Catalog → Type 0
AreMissing string = All (λ (c : Catalog). translation string c.messages ≡ none)

function_at-catalogs :
    (catalogs : List Catalog) (doc : Documentation)
    → function_at (units "PLURALEXPR") doc.functions ≡ none
    → function_at (units "PLURALEXPR") (foldl (λ d c. add_translations c d) doc catalogs).functions
      ≡ none
unfolding add_translations
function_at-catalogs [] doc h = h
function_at-catalogs (c ∷ cs) doc h =
    function_at-catalogs cs (add_translations c doc)
      (function_at-set_function _ _ c.plural_expr doc.functions misspelt ∙ h)

over-none : (new old : Option Translation) → (over new old ≡ none) ↔ ((new ≡ none) × (old ≡ none))
over-none none old = ((λ h. (refl, h)), (λ h. h.1))
over-none (some t) old = ((λ h. cc), (λ h. let bad = h.0 in cc))

translation-catalogs :
    (string : Str) (catalogs : List Catalog) (doc : Documentation)
    → All (λ (c : Catalog). AreKeys c.messages) catalogs
    → (translation string (foldl (λ d c. add_translations c d) doc catalogs).translations ≡ none)
      ↔ ((translation string doc.translations ≡ none) × AreMissing string catalogs)
unfolding add_translations
translation-catalogs string [] doc keys = ((λ h. (h, tt)), (λ h. h.0))
translation-catalogs string (c ∷ cs) doc (keys, more) =
    let (there, back) = translation-catalogs string cs (add_translations c doc) more in
    let joined = translation-assign_all string c.messages doc.translations keys in
    (
      (λ h.
          let (here, earlier) = (over-none _ _).0 (sym joined ∙ (there h).0) in
          (earlier, (here, (there h).1))),
      (λ (earlier, (here, later)). back (joined ∙ (over-none _ _).1 (here, earlier), later)),
    )

no_plural :
    (doc : Documentation) (translated : Option Translation) (n : ℕ)
    → function_at (units "PLURALEXPR") doc.functions ≡ none
    → plural_form doc translated n ≡ throw type_error
unfolding plural_form
no_plural doc translated n h = rw (h, plural_form) refl

-- Without the function that it calls, `ngettext` throws where it does not give back its arguments.
ngettext_cases :
    (doc : Documentation) (singular plural : Str) (n : ℕ)
    → function_at (units "PLURALEXPR") doc.functions ≡ none
    → ((translation singular doc.translations ≡ none)
        × (inherits singular ≡ false)
        × (ngettext doc singular plural n ≡ ok (some (if n == 1 then singular else plural))))
      ⊎ ((¬ ((translation singular doc.translations ≡ none) × (inherits singular ≡ false)))
          × (ngettext doc singular plural n ≡ throw type_error))
unfolding ngettext
ngettext_cases doc singular plural n missing =
    elim (Option-cases (translation singular doc.translations)) [
      | inr (t, found) ↦ inr (
        (λ h. let bad = sym found ∙ h.0 in cc),
        rw (found, ngettext) (no_plural doc (some t) n missing),
      )
      | inl absent ↦ elim (Bool-cases (inherits singular)) [
        | inl inherited ↦ inr (
          (λ h. let bad = sym inherited ∙ h.1 in cc),
          rw (absent, ngettext) (rw inherited (no_plural doc none n missing)),
        )
        | inr free ↦ inl (absent, free, rw (absent, ngettext) (rw free refl))
      ]
    ]

no_expr : function_at (units "PLURALEXPR") documentation.functions ≡ none
unfolding function_at same
no_expr = refl

no_text : (string : Str) → translation string documentation.translations ≡ none
unfolding translation
no_text string = refl

-- When any catalogs with distinct keys have been added, one after the other, `ngettext` gives back
-- the singular for 1 and the plural otherwise exactly for the texts that none of the catalogs
-- translates and that are no inherited names. For exactly the other texts it throws a TypeError,
-- whatever the number and the expressions for the plural.
pub ngettext_iff :
    (catalogs : List Catalog) (singular plural : Str) (n : ℕ)
    → All (λ (c : Catalog). AreKeys c.messages) catalogs
    → let doc = with_catalogs catalogs in
      ((ngettext doc singular plural n ≡ ok (some (if n == 1 then singular else plural)))
        ↔ (AreMissing singular catalogs × (inherits singular ≡ false)))
      × ((ngettext doc singular plural n ≡ throw type_error)
          ↔ (¬ (AreMissing singular catalogs × (inherits singular ≡ false))))
ngettext_iff catalogs singular plural n keys =
    let doc = with_catalogs catalogs in
    let (there, back) = translation-catalogs singular catalogs documentation keys in
    elim (ngettext_cases doc singular plural n
      (function_at-catalogs catalogs documentation no_expr)) [
        | inl (absent, free, given) ↦ (
          ((λ _. ((there absent).1, free)), (λ _. given)),
          (
            (λ thrown. let bad = sym given ∙ thrown in cc),
            (λ n. absurd (n ((there absent).1, free))),
          ),
        )
        | inr (n, thrown) ↦ (
          (
            (λ given. let bad = sym thrown ∙ given in cc),
            (λ h. absurd (n (back (no_text singular, h.0), h.1))),
          ),
          ((λ _ h. n (back (no_text singular, h.0), h.1)), (λ _. thrown)),
        )
      ]
