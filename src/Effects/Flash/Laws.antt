-- ===== src/Effects/Flash/Laws.antt =====
-- The style of an element, and its callbacks, through flashes (effects.highlight.js).
use mathlib.Core.Path.{subst}
use sbt_example.Common.{
  ◌≡◌, refl, sym, ◌∙◌, Str, units, same, same_iff, false, Option, none, some, List, [], ◌∷◌,
  if◌then◌else◌, Bool-cases, Bool, true, ap, inl, inr, arith, All,
}
use sbt_example.Doctools.Query.{listed}
use sbt_example.Effects.Flash.{
  Style, Flash, Animation, Element, property, set_property, props, copy, save, restore, set_mode,
  option_or, animation_to, show_element, hide_if, shift, start_flash, reach, complete, next_flash,
  dequeue, enqueue, end_animation, Event, flashed, ended, happen, happen_all,
}

pub property-set_property :
    (k j v : Str) (ps : Style)
    → property k (set_property j v ps) ≡ (if same k j then v else property k ps)
unfolding property set_property
property-set_property k j v [] = ground arith
property-set_property k j v ((i, w) ∷ ps) =
    ground (arith, property-set_property k j v ps, same_iff k j, same_iff k i, same_iff j i)

pub property-copy :
    (k : Str) (set : List Str) (from to : Style)
    → property k (copy set from to) ≡ (if listed k set then property k from else property k to)
unfolding copy listed
property-copy k [] from to = refl
property-copy k (j ∷ set) from to = ground (
  arith,
  property-copy k set from (set_property j (property j from) to),
  property-set_property k j (property j from) to,
  same_iff k j,
)

-- The style that the element has when no flash is running, by its properties.
abbrev pub kept : Str → Element → Str
kept k el = elim el.running [
  | none ↦ property k el.style
  | some _ ↦ if listed k props then property k el.storage else property k el.style
]

listed-absent : (k : Str) (ns : List Str) → listed k ns ≡ false → All (λ j. same k j ≡ false) ns
unfolding listed
listed-absent k [] h = tt
listed-absent k (n ∷ ns) h = (ground arith, listed-absent k ns (ground arith))

-- Properties of other names are left as they are.
property-reach :
    (k : Str) (target style : Style)
    → All (λ p. same k p.0 ≡ false) target
    → property k (reach target style) ≡ property k style
unfolding reach
property-reach k [] style h = refl
property-reach k ((j, v) ∷ target) style (e, h) =
    property-reach k target (set_property j v style) h
    ∙ property-set_property k j v style
    ∙ rw e refl

property-shift :
    (k color : Str) (style : Style)
    → listed k props ≡ false
    → property k (shift color style) ≡ property k style
unfolding shift reach
property-shift k color style h =
    let (image, (background, _)) = listed-absent k props h in
    property-reach k
      ((units "backgroundImage", units "none") ∷ (units "backgroundColor", color) ∷ []) style
      (image, (background, tt))

property-animation_to :
    (k mode : Str) (style : Style)
    → listed k props ≡ false
    → property k (reach (animation_to mode) style) ≡ property k style
unfolding animation_to
property-animation_to k mode style h =
    let (_, (background, (opacity, _))) = listed-absent k props h in
    property-reach k (animation_to mode) style (elim (Bool-cases (same mode (units "hide"))) [
      | inl e ↦ rw e (background, (opacity, tt))
      | inr e ↦ rw e (background, tt)
    ])

-- `show` and `hide` change `display` alone.
property-display :
    (k v : Str) (style : Style)
    → same k (units "display") ≡ false
    → property k (set_property (units "display") v style) ≡ property k style
property-display k v style d = property-set_property k (units "display") v style ∙ rw d refl

property-hide_if :
    (k : Str) (hides : Bool) (el : Element)
    → same k (units "display") ≡ false
    → property k (hide_if hides el).style ≡ property k el.style
unfolding hide_if
property-hide_if k true el d = property-display k (units "none") el.style d
property-hide_if k false el d = refl

kept-start_flash :
    (k : Str) (o : Flash) (el : Element)
    → same k (units "display") ≡ false
    → kept k (start_flash o el) ≡ property k el.style
unfolding start_flash save show_element
kept-start_flash k o el d = elim (Bool-cases (listed k props)) [
  | inl e ↦ rw e (property-copy k props el.style el.storage ∙ rw e refl)
  | inr e ↦
      rw e (
        property-shift k (option_or (units "#ffff99") o.color) _ e
        ∙ property-display k _ el.style d)
]

kept-complete :
    (k mode : Str) (a : Animation) (el : Element)
    → same k (units "display") ≡ false
    → el.running ≡ some a
    → a.target ≡ animation_to mode
    → property k (complete a el).style ≡ kept k el
unfolding complete restore hide_if
kept-complete k mode a el d e t =
    let hides = same a.mode (units "hide") in
    let reached = record el { style = reach a.target el.style } in
    property-copy k props el.storage (hide_if hides reached).style
    ∙ ap (λ s. if listed k props then property k el.storage else s)
        (property-hide_if k hides reached d ∙ ap (λ target. property k (reach target el.style)) t)
    ∙ by_name (listed k props) (λ h. property-animation_to k mode el.style h)
    ∙ ap
        (λ r. elim r as (λ (x : Option Animation). Str) [
          | none ↦ property k el.style
          | some _ ↦ if listed k props then property k el.storage else property k el.style
        ])
        (sym e)
  where
    by_name :
        (is_prop : Bool)
        → (is_prop ≡ false → property k (reach (animation_to mode) el.style) ≡ property k el.style)
        → (if is_prop
            then property k el.storage
            else property k (reach (animation_to mode) el.style))
          ≡ (if is_prop then property k el.storage else property k el.style)
    by_name true h = refl
    by_name false h = h refl

-- A running animation goes to one of the two targets of a flash.
abbrev pub IsTarget : Option Animation → Type 0
IsTarget none = Unit
IsTarget (some a) = (mode : Str) × (a.target ≡ animation_to mode)

start_flash-IsTarget : (o : Flash) (el : Element) → IsTarget (start_flash o el).running
unfolding start_flash
start_flash-IsTarget o el = (set_mode el.hidden (option_or (units "show") o.mode), refl)

kept-next_flash :
    (k : Str) (os : List Flash) (el : Element)
    → same k (units "display") ≡ false
    → el.running ≡ none
    → (kept k (next_flash os el) ≡ property k el.style) × IsTarget (next_flash os el).running
unfolding next_flash
kept-next_flash k [] el d e = rw e (refl, tt)
kept-next_flash k (o ∷ rest) el d e =
    let started = record el { queue = rest } in
    (kept-start_flash k o started d, start_flash-IsTarget o started)

kept-completed :
    (k : Str) (a : Animation) (el : Element)
    → same k (units "display") ≡ false
    → el.running ≡ some a
    → IsTarget (some a)
    → (kept k (dequeue (complete a el)) ≡ kept k el) × IsTarget (dequeue (complete a el)).running
unfolding dequeue complete restore hide_if
kept-completed k a el d e (mode, t) =
    let (after, target) = kept-next_flash k el.queue (complete a el) d refl in
    (after ∙ kept-complete k mode a el d e t, target)

kept_idle : (k : Str) (el : Element) → el.running ≡ none → kept k el ≡ property k el.style
kept_idle k el e = rw e refl

kept-enqueue :
    (k : Str) (r : Option Animation) (o : Flash) (el : Element)
    → same k (units "display") ≡ false
    → el.running ≡ r
    → IsTarget r
    → (kept k (enqueue r o el) ≡ kept k el) × IsTarget (enqueue r o el).running
unfolding enqueue
kept-enqueue k none o el d e h =
    (kept-start_flash k o el d ∙ sym (kept_idle k el e), start_flash-IsTarget o el)
kept-enqueue k (some a) o el d e h = (refl, subst IsTarget (sym e) h)

kept-end_animation :
    (k : Str) (r : Option Animation) (el : Element)
    → same k (units "display") ≡ false
    → el.running ≡ r
    → IsTarget r
    → (kept k (end_animation r el) ≡ kept k el) × IsTarget (end_animation r el).running
unfolding end_animation
kept-end_animation k none el d e h = (refl, subst IsTarget (sym e) h)
kept-end_animation k (some a) el d e h = kept-completed k a el d e h

kept-happen_all :
    (k : Str) (events : List Event) (el : Element)
    → same k (units "display") ≡ false
    → IsTarget el.running
    → kept k (happen_all events el) ≡ kept k el
unfolding happen_all happen
kept-happen_all k [] el d h = refl
kept-happen_all k (flashed o ∷ es) el d h =
    let (same, target) = kept-enqueue k el.running o el d refl h in
    kept-happen_all k es (enqueue el.running o el) d target ∙ same
kept-happen_all k (ended ∷ es) el d h =
    let (same, target) = kept-end_animation k el.running el d refl h in
    kept-happen_all k es (end_animation el.running el) d target ∙ same

-- When a heading on which nothing runs has been flashed any number of times, at whatever moments,
-- and again nothing runs on it, every property of its style but `display` is what it was before.
pub style-happen_all :
    (k : Str) (events : List Event) (el : Element)
    → same k (units "display") ≡ false
    → el.running ≡ none
    → (happen_all events el).running ≡ none
    → property k (happen_all events el).style ≡ property k el.style
style-happen_all k events el d e e' =
    sym (kept_idle k (happen_all events el) e')
    ∙ kept-happen_all k events el d (subst IsTarget (sym e) tt)
    ∙ kept_idle k el e
