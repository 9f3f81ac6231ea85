-- ===== src/Effects/Wrapper/Laws.antt =====
-- An element that was in a box (effects.core.js) and has left it.
use sbt_example.Common.{
  or_false, ◌≡◌, refl, ap, ◌∙◌, Str, units, same, false, List, [], ◌∷◌, map, if_both, Bool-cases,
  inl, inr,
}
use sbt_example.Doctools.Query.{listed}
use sbt_example.Effects.Flash.{Style, Element, property, set_property, copy, save, restore}
use sbt_example.Effects.Flash.Laws.{property-copy, property-set_property}
use sbt_example.Effects.Wrapper.{
  Held, itself, is_wrapped, set_all, inner_place, wrap, create_wrapper, leave, remove_wrapper,
}

-- The properties that an effect saves before it makes a box.
abbrev pub placing : List Str
placing = units "position" ∷ units "top" ∷ units "left" ∷ []

abbrev on_element : (Element → Element) → Held → Held
on_element f el = record el { element = f el.element }

names_of : Style → List Str
names_of = map (λ p. p.0)

property-set_all :
    (k : Str) (ps style : Style)
    → listed k (names_of ps) ≡ false
    → property k (set_all ps style) ≡ property k style
unfolding set_all listed names_of
property-set_all k [] style h = refl
property-set_all k ((j, v) ∷ ps) style h =
    let (here, later) = or_false (same k j) (listed k (names_of ps)) h in
    property-set_all k ps (set_property j v style) later
    ∙ (property-set_property k j v style ∙ rw here refl)

module _ (css : Str → Held → Str) (outer_width outer_height : Held → Str) where
  inner_place-placing :
      (k : Str) (el : Held)
      → listed k placing ≡ false
      → listed k (names_of (inner_place css el)) ≡ false
  unfolding inner_place listed names_of
  inner_place-placing k el h =
      let (here, later) = or_false (same k (units "position")) _ h in
      if_both (λ ps. listed k (names_of ps) ≡ false)
        (same (css (units "position") el) (units "static")) _ _ (rw here refl) (rw here later)

  abbrev placed_inside : Held → Style
  placed_inside h = set_all (inner_place css (wrap h)) h.element.style

  remove_wrapper-create_wrapper :
      (h : Held)
      → is_wrapped h.parents ≡ false
      → (remove_wrapper (create_wrapper css outer_width outer_height h).0).0
        ≡ record h { element = record h.element { style = placed_inside h } }
  unfolding create_wrapper remove_wrapper is_wrapped leave same wrap
  remove_wrapper-create_wrapper h free = rw free refl

  -- The place of an element is saved, a box is made and taken away, and the place is restored.
  abbrev pub wrapped : Held → Held
  wrapped h =
      on_element (restore placing)
        (remove_wrapper
          (create_wrapper css outer_width outer_height (on_element (save placing) h)).0).0

  -- When position, top and left of an element that is in no box are saved, a box is made for it and
  -- taken away, and the three are restored, the element is below the same elements as before, and
  -- every property of its style is what it was.
  pub wrapped-property :
      (h : Held)
      → is_wrapped h.parents ≡ false
      → ((wrapped h).parents ≡ h.parents)
        × ((k : Str) → property k (wrapped h).element.style ≡ property k h.element.style)
  unfolding save restore
  wrapped-property h free =
      let e = remove_wrapper-create_wrapper (on_element (save placing) h) free in
      (
        ap (λ (x : Held). x.parents) e,
        λ k.
            ap (λ (x : Held). property k (copy placing x.element.storage x.element.style)) e
            ∙ (property-copy k placing (copy placing h.element.style h.element.storage) _
                ∙ elim (Bool-cases (listed k placing)) [
                  | inl saved ↦
                      rw saved
                        (property-copy k placing h.element.style h.element.storage ∙ rw saved refl)
                  | inr other ↦ rw other (property-set_all k _ _ (inner_place-placing k _ other))
                ]),
      )

  -- A second box is not made; what is given back is then the element, not its box.
  create_wrapper_twice :
      (h : Held)
      → create_wrapper css outer_width outer_height
          (create_wrapper css outer_width outer_height h).0
        ≡ ((create_wrapper css outer_width outer_height h).0, itself)
  unfolding create_wrapper is_wrapped same
  create_wrapper_twice h = elim (Bool-cases (is_wrapped h.parents)) [
    | inl inside ↦ rw (inside, inside) refl
    | inr free ↦ rw free refl
  ]
