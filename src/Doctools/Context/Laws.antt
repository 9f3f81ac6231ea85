-- ===== src/Doctools/Context/Laws.antt =====
-- What `addContextElements` (doctools.js) adds, and when it gets through.
use sbt_example.Common.{
  ◌≡◌, refl, ap, ◌∙◌, Str, units, Option, none, some, List, [], ◌∷◌, ◌++◌, map, Outcome, ok, throw,
  type_error, bind_inv, arith, ◌↔◌,
}
use sbt_example.Doctools.Catalog.{Documentation, gettext}
use sbt_example.Doctools.Context.{
  Anchored, Context, add_link, add_links, add_first, add_context_elements,
}

-- The element with a link to itself.
abbrev pub linked : Str → Anchored → Anchored
linked title x = record x {
  permalinks = x.permalinks ++ record { href = b'#' ∷ x.id; title = title } ∷ [];
}

abbrev pub first_linked : Str → List Anchored → List Anchored
first_linked title [] = []
first_linked title (x ∷ xs) = linked title x ∷ xs

-- The elements of a selection have been given links, if there are any; then the title is defined.
abbrev pub AreLinked :
    (Str → List Anchored → List Anchored) → Option Str → List Anchored → List Anchored → Type 0
AreLinked link title [] ys = ys ≡ []
AreLinked link title (x ∷ xs) ys = (t : Str) × (title ≡ some t) × (ys ≡ link t (x ∷ xs))

-- A result is the one that is known.
known_iff {ℓ} : {A : Type ℓ} (r : Outcome A) (x y : A) → r ≡ ok x → (r ≡ ok y) ↔ (y ≡ x)
known_iff r x y e = ((λ h. cc), λ h. cc)

throws_iff {ℓ κ} :
    {A : Type ℓ} {B : Type κ} (r : Outcome A) (x : A) → r ≡ throw type_error → ¬ B → (r ≡ ok x) ↔ B
throws_iff r x e n = ((λ h. cc), λ b. absurd (n b))

titled_iff {ℓ} :
    {B : Type ℓ} (t : Str) (link : Str → List Anchored) (ys : List Anchored)
    → B ↔ (ys ≡ link t)
    → B ↔ ((u : Str) × (some t ≡ some u) × (ys ≡ link u))
titled_iff t link ys (to, from) = ((λ b. (t, refl, to b)), λ (u, e, h). from (h ∙ ap link (cc)))

add_links-some : (t : Str) (xs : List Anchored) → add_links (some t) xs ≡ ok (map (linked t) xs)
unfolding add_links add_link
add_links-some t [] = refl
add_links-some t (x ∷ xs) = rw (add_links-some t xs) refl

add_links_iff :
    (title : Option Str) (xs ys : List Anchored)
    → (add_links title xs ≡ ok ys) ↔ AreLinked (λ t. map (linked t)) title xs ys
unfolding add_links add_link
add_links_iff title [] ys = known_iff (add_links title []) [] ys refl
add_links_iff none (x ∷ xs) ys = throws_iff (add_links none (x ∷ xs)) ys refl (λ (t, e, _). cc)
add_links_iff (some t) (x ∷ xs) ys =
    titled_iff t (λ u. map (linked u) (x ∷ xs)) ys
      (known_iff (add_links (some t) (x ∷ xs)) _ ys (add_links-some t (x ∷ xs)))

add_first_iff :
    (title : Option Str) (xs ys : List Anchored)
    → (add_first title xs ≡ ok ys) ↔ AreLinked first_linked title xs ys
unfolding add_first add_link
add_first_iff title [] ys = known_iff (add_first title []) [] ys refl
add_first_iff none (x ∷ xs) ys = throws_iff (add_first none (x ∷ xs)) ys refl (λ (t, e, _). cc)
add_first_iff (some t) (x ∷ xs) ys =
    titled_iff t (λ u. first_linked u (x ∷ xs)) ys
      (known_iff (add_first (some t) (x ∷ xs)) _ ys refl)

-- `addContextElements` returns exactly where the titles that it needs are defined. Then of all
-- headings only the first has got a link to its own id, and every `dt` has got one, behind the
-- links that they had.
pub add_context_elements_iff :
    (doc : Documentation) (c next : Context)
    → (add_context_elements doc c ≡ ok next) ↔ (
        AreLinked first_linked
          (gettext doc (units "Permalink to this headline"))
          c.headings
          next.headings
        × AreLinked
            (λ t. map (linked t))
            (gettext doc (units "Permalink to this definition"))
            c.terms
            next.terms)
unfolding add_context_elements
add_context_elements_iff doc c next =
    let title = gettext doc (units "Permalink to this headline") in
    let title' = gettext doc (units "Permalink to this definition") in
    (
      λ h.
          let (hs, e, h') = bind_inv (add_first title c.headings) _ h in
          let (ts, e', h'') = bind_inv (add_links title' c.terms) _ h' in
          (
            (add_first_iff title c.headings next.headings).0 (e ∙ ground arith),
            (add_links_iff title' c.terms next.terms).0 (e' ∙ ground arith),
          ),
      λ (first, rest).
          rw
            (
              (add_first_iff title c.headings next.headings).1 first,
              (add_links_iff title' c.terms next.terms).1 rest,
            )
            refl,
    )
