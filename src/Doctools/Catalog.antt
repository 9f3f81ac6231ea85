-- ===== src/Doctools/Catalog.antt =====
-- doctools.js: the translations, `gettext`, `ngettext` and `addTranslations`.
pub mod Laws
mod Tests
use sbt_example.Common.{
  ℕ, Str, units, same, Bool, true, false, Option, none, some, List, [], ◌∷◌, ◌==◌, if◌then◌else◌,
  Outcome, ok, throw, type_error, get_elem?,
}
use mathlib.Core.Option
use sbt_example.Doctools.Query.{inherits}

-- A translation is a text or an array of the plural forms.
pub data Translation : Type 0 where
  single : Str → Translation
  forms : List Str → Translation

-- The members of `Documentation` that the functions use: `TRANSLATIONS` by its own properties, the
-- functions of a number by their names, and `LOCALE`.
pub record Documentation : Type 0 where
  pub translations : List (Str × Translation)
  pub functions : List (Str × (ℕ → ℕ))
  pub locale : Str

abbrev pub documentation : Documentation
documentation = record {
  translations = [];
  functions = (units "PLURAL_EXPR", λ n. if n == 1 then 0 else 1) ∷ [];
  locale = units "unknown";
}

-- What `addTranslations` is given; its expression for the plural is compiled to a function.
pub record Catalog : Type 0 where
  pub messages : List (Str × Translation)
  pub plural_expr : ℕ → ℕ
  pub locale : Str

unfoldable pub translation : Str → List (Str × Translation) → Option Translation
translation k [] = none
translation k ((j, t) ∷ ts) = if same k j then some t else translation k ts

-- `TRANSLATIONS[key] = value`.
unfoldable pub assign : Str → Translation → List (Str × Translation) → List (Str × Translation)
assign k t [] = (k, t) ∷ []
assign k t ((j, u) ∷ ts) = if same k j then (j, t) ∷ ts else (j, u) ∷ assign k t ts

unfoldable pub assign_all :
    List (Str × Translation) → List (Str × Translation) → List (Str × Translation)
assign_all [] ts = ts
assign_all ((k, t) ∷ messages) ts = assign_all messages (assign k t ts)

-- `Documentation[name]`, among the functions.
unfoldable pub function_at : Str → List (Str × (ℕ → ℕ)) → Option (ℕ → ℕ)
function_at k [] = none
function_at k ((j, f) ∷ fs) = if same k j then some f else function_at k fs

-- `Documentation[name] = f`.
unfoldable pub set_function : Str → (ℕ → ℕ) → List (Str × (ℕ → ℕ)) → List (Str × (ℕ → ℕ))
set_function k f [] = (k, f) ∷ []
set_function k f ((j, g) ∷ fs) = if same k j then (j, f) ∷ fs else (j, g) ∷ set_function k f fs

unfoldable pub add_translations : Catalog → Documentation → Documentation
add_translations catalog doc = record doc {
  translations = assign_all catalog.messages doc.translations;
  functions = set_function (units "PLURAL_EXPR") catalog.plural_expr doc.functions;
  locale = catalog.locale;
}

-- `translated[0]`; `none` stands for `undefined`.
unfoldable pub first_form : Translation → Option Str
first_form (single s) = some s
first_form (forms []) = none
first_form (forms (s ∷ ss)) = some s

-- A name that every object inherits is found, and what is found there has no member 0.
unfoldable pub gettext : Documentation → Str → Option Str
gettext doc string = elim (translation string doc.translations) [
  | none ↦ if inherits string then none else some string
  | some t ↦ first_form t
]

-- `translated[i]`: a character of a text, or a form; `none` stands for `undefined`.
unfoldable pub form_at : Translation → ℕ → Option Str
form_at (single s) i = Option.map (λ c. c ∷ []) (get_elem? s i)
form_at (forms ss) i = get_elem? ss i

-- `translated[Documentation.PLURALEXPR(n)]`, where what is found under an inherited name has no
-- numbered members. The call of a missing member throws.
unfoldable pub plural_form : Documentation → Option Translation → ℕ → Outcome (Option Str)
plural_form doc translated n = elim (function_at (units "PLURALEXPR") doc.functions) [
  | none ↦ throw type_error
  | some f ↦ elim translated [ none ↦ ok none | some t ↦ ok (form_at t (f n)) ]
]

unfoldable pub ngettext : Documentation → Str → Str → ℕ → Outcome (Option Str)
ngettext doc singular plural n = elim (translation singular doc.translations) [
  | none ↦
      let inherited = plural_form doc none n in
      if inherits singular then inherited else ok (some (if n == 1 then singular else plural))
  | some t ↦ plural_form doc (some t) n
]
