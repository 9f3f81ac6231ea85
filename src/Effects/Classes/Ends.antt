-- ===== src/Effects/Classes/Ends.antt =====
-- `addClass`, `removeClass` and `switchClass` (effects.core.js) with a speed, up to the end of
-- their animations.
use mathlib.Core.List.{Forall₂}
use sbt_example.Common.{
  ℕ, ◌≡◌, refl, Str, same, not, ◌&&◌, ◌||◌, Option, none, some, List, [], ◌∷◌, map, All, Bool, true,
  false, if◌then◌else◌,
}
use sbt_example.Effects.Verbs.{Arg}
use sbt_example.Effects.Classes.{
  ClassFunctions, is_name, Change, Styled, Easing, callback_of, is_given, visit_elements,
  set_toggle, last_change, animate_class, add_class, keeps_function, is_moving, remove_class, morph,
  switch_class,
}
use sbt_example.Effects.Classes.Settled.{
  names, is_single, changed, settle, IsStill, IsSettled, visit_element-IsSettled,
}

-- A change that does not depend on the element.
abbrev pub fixed : Option Str → Option Str → Change
fixed add remove = record { add = add; remove = remove; toggle = none }

module _ (jq : ClassFunctions) (frames : Styled → List Str) where
  -- The animation of each element runs through its frames and ends.
  abbrev pub settle_all : List Styled → List Styled
  settle_all = map (λ e. settle jq (frames e) e)

  last_change-fixed :
      (add remove : Option Str) (es : List Styled)
      → last_change jq (fixed add remove) es ≡ fixed add remove
  unfolding last_change set_toggle
  last_change-fixed add remove [] = refl
  last_change-fixed add remove (e ∷ es) = last_change-fixed add remove es

  module _ (speed : Arg) (easing : Easing) (callback : Option ℕ) where
    either_way : (b : Bool) (v : Change) → (if b then v else v) ≡ v
    either_way true v = refl
    either_way false v = refl

    visit_elements-IsSettled :
        (add remove : Option Str)
        → is_single add ≡ true
        → is_single remove ≡ true
        → keeps_function speed ≡ true
        → (es : List Styled) → All IsStill es
        → Forall₂ (IsSettled jq (changed (fixed add remove)) (callback_of easing callback)) es (
            settle_all
              (visit_elements jq speed easing callback (fixed add remove) (fixed add remove) es))
    unfolding visit_elements set_toggle
    visit_elements-IsSettled add remove a r k [] still = Forall₂.nil
    visit_elements-IsSettled add remove a r k (e ∷ es) (still, rest) =
        Forall₂.cons
          (visit_element-IsSettled jq speed easing callback (fixed add remove) (fixed add remove)
            (fixed add remove) k a r a r (λ d h. h) (λ d h. h) _ e still
            (either_way (is_moving jq (fixed add remove) e) (fixed add remove)))
          (visit_elements-IsSettled add remove a r k es rest)

    animate_class-IsSettled :
        (add remove : Option Str)
        → is_single add ≡ true
        → is_single remove ≡ true
        → keeps_function speed ≡ true
        → (es : List Styled) → All IsStill es
        → Forall₂
            (IsSettled jq (changed (fixed add remove)) (callback_of easing callback))
            es
            (settle_all (animate_class jq (fixed add remove) speed easing callback es))
    unfolding animate_class
    animate_class-IsSettled add remove a r k es still =
        rw (last_change-fixed add remove es) (visit_elements-IsSettled add remove a r k es still)

    -- Let nothing run on the elements, and let `c` and `r` be class names. When the animations of
    -- a call with a speed that is no object are over, whatever style attributes they went through, every element has
    -- `c` besides its classes after addClass, has its classes but `c` after removeClass, and
    -- `c` besides them but no `r` after switchClass; its style attribute reads as before, and
    -- the callback, if there is one, was made once for each element.
    pub timed_calls-IsSettled :
        (c r : Str)
        → is_name c ≡ true
        → is_name r ≡ true
        → is_given speed ≡ true
        → keeps_function speed ≡ true
        → (es : List Styled) → All IsStill es
        → Forall₂
            (IsSettled jq (λ d h. same d c || h) (callback_of easing callback))
            es
            (settle_all (add_class jq c speed easing callback es))
          × Forall₂
              (IsSettled jq (λ d h. not (same d c) && h) (callback_of easing callback))
              es
              (settle_all (remove_class jq c speed easing callback es))
          × Forall₂
              (IsSettled jq
                (λ d h. not (same d r) && (same d c || h))
                (callback_of easing callback))
              es
              (settle_all (switch_class jq r c speed easing callback es))
    unfolding add_class remove_class switch_class morph is_single names
    timed_calls-IsSettled [] r c_name r_name given k es still = cc
    timed_calls-IsSettled (x ∷ s) [] c_name r_name given k es still = cc
    timed_calls-IsSettled (x ∷ s) (y ∷ t) c_name r_name given k es still = rw given (
      animate_class-IsSettled (some (x ∷ s)) none c_name refl k es still,
      animate_class-IsSettled none (some (x ∷ s)) refl c_name k es still,
      animate_class-IsSettled (some (x ∷ s)) (some (y ∷ t)) c_name r_name k es still,
    )
