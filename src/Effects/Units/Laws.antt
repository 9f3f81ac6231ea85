-- ===== src/Effects/Units/Laws.antt =====
-- What `setTransition` (effects.core.js) leaves in its object.
use sbt_example.Common.{
  ◌≡◌, refl, sym, ◌∙◌, Str, same, same_iff, Bool, true, false, Option, none, some, List, [], ◌∷◌,
  if◌then◌else◌, Bool-cases, inl, inr, arith,
}
use sbt_example.Js.Number.{Numbers}
use sbt_example.Doctools.Query.{listed}
use sbt_example.Effects.Flash.{Style, property}
use sbt_example.Effects.Flash.Laws.{property-set_property}
use sbt_example.Effects.Units.{scaled, put_scaled, set_transition}

-- The value if there is one.
abbrev pub value_or : Str → Option Str → Str
value_or v none = v
value_or v (some w) = w

property-put_scaled :
    (k key : Str) (o : Option Str) (val : Style)
    → property k (put_scaled key o val)
      ≡ (if same k key then value_or (property k val) o else property k val)
unfolding put_scaled
property-put_scaled k key none val = ground arith
property-put_scaled k key (some v) val = property-set_property k key v val

value_twice :
    (b : Bool) (v : Str) (o : Option Str)
    → (if b then value_or (value_or v o) o else value_or v o) ≡ value_or v o
value_twice true v none = refl
value_twice true v (some w) = refl
value_twice false v o = refl

module _ {A : Type 0} ⦃n : Numbers A⦄ (parse_float : Str → A) (text_of : A → Str)
    (css : Str → Str) where
  -- After setTransition a property of the list has its scaled size, where the style gives it a size
  -- above 0 in a unit; it has its old value where it does not, and so has any other property.
  pub property-set_transition :
      (k : Str) (keys : List Str) (factor : A) (val : Style)
      → property k (set_transition parse_float text_of css keys factor val) ≡ (
          if listed k keys
          then value_or (property k val) (scaled parse_float text_of css factor k)
          else property k val)
  unfolding set_transition listed
  property-set_transition k [] factor val = refl
  property-set_transition k (key ∷ keys) factor val =
      property-set_transition k keys factor _ ∙ elim (Bool-cases (same k key)) [
        | inr differ ↦
            rw (property-put_scaled k key (scaled parse_float text_of css factor key) val, differ)
              refl
        | inl it ↦
            rw
              (
                property-put_scaled k key (scaled parse_float text_of css factor key) val,
                it,
                sym ((same_iff k key).0 it),
              )
              (value_twice (listed k keys) (property k val)
                (scaled parse_float text_of css factor k))
      ]
