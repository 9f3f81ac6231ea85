-- ===== src/Doctools/Catalog/Tests.antt =====
-- A small catalog for the translations of doctools.js.
use sbt_example.Common.{
  ℕ, ◌≡◌, ◌↔◌, refl, Str, units, same, false, Option, none, some, [], ◌∷◌, Outcome, ok, throw,
  type_error, ◌==◌, if◌then◌else◌,
}
use sbt_example.Doctools.Query.{inherits}
use sbt_example.Doctools.Catalog.{
  single, forms, Documentation, documentation, Catalog, translation, assign, assign_all,
  add_translations, first_form, gettext, ngettext, plural_form, form_at, function_at, set_function,
}
use sbt_example.Doctools.Catalog.Laws.{AreKeys, AreMissing, gettext-add_translations, ngettext_iff}

abbrev german : Catalog
german = record {
  messages =
      (units "Search", single (units "Suche"))
      ∷ (units "page", forms (units "Seite" ∷ units "Seiten" ∷ []))
      ∷ [];
  plural_expr = λ n. n;
  locale = units "de";
}

abbrev loaded : Documentation
loaded = add_translations german documentation

translated : Str → Option Str
unfolding gettext add_translations assign_all assign translation first_form inherits same
translated = gettext loaded

pages : ℕ → Outcome (Option Str)
unfolding ngettext plural_form function_at set_function add_translations assign_all assign
    translation inherits same
pages = ngettext loaded (units "page") (units "pages")

search_translated : translated (units "Search") ≡ some (units "Suche")
unfolding translated
search_translated = refl

-- A text that is an inherited name has no translation, and not itself either.
inherited_name : translated (units "constructor") ≡ none
unfolding translated
inherited_name = refl

translated_plural : pages 2 ≡ throw type_error
unfolding pages
translated_plural = refl

german_keys : AreKeys german.messages
unfolding translation same
german_keys = (refl, (refl, tt))

gettext-add_translations_example :
    gettext (add_translations german documentation) (units "Search")
    ≡ elim (translation (units "Search") german.messages) [
      | none ↦ gettext documentation (units "Search")
      | some t ↦ first_form t
    ]
gettext-add_translations_example =
    gettext-add_translations german documentation (units "Search") german_keys

ngettext_iff_example :
    ((ngettext loaded (units "page") (units "pages") 2 ≡ ok (some (units "pages")))
      ↔ (AreMissing (units "page") (german ∷ []) × (inherits (units "page") ≡ false)))
    × ((ngettext loaded (units "page") (units "pages") 2 ≡ throw type_error)
        ↔ (¬ (AreMissing (units "page") (german ∷ []) × (inherits (units "page") ≡ false))))
ngettext_iff_example = ngettext_iff (german ∷ []) (units "page") (units "pages") 2 (german_keys, tt)

-- With the name that is meant the second form is found.
abbrev corrected : Documentation
corrected = record loaded { functions = (units "PLURALEXPR", λ n. if n == 1 then 0 else 1) ∷ [] }

corrected_plural : ngettext corrected (units "page") (units "pages") 2 ≡ ok (some (units "Seiten"))
unfolding ngettext plural_form form_at function_at add_translations assign_all assign translation
    same
corrected_plural = refl
