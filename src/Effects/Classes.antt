-- ===== src/Effects/Classes.antt =====
-- effects.core.js: `animateClass`, and `addClass`, `removeClass`, `toggleClass`, `morph` and
-- `switchClass`, which it puts in front of jQuery's own functions of these names.
pub mod Settled
pub mod Ends
pub mod Toggled
mod Tests
use sbt_example.Common.{
  ℕ, ◌≡◌, Str, units, same, Bool, true, false, not, ◌&&◌, ◌||◌, leb, ◌==◌, Option, none, some, List,
  [], ◌∷◌, ◌++◌, map, if◌then◌else◌,
}
use sbt_example.Js.Text.{index_of, is_found, is_space}
use sbt_example.Effects.Flash.{called_back}
use sbt_example.Effects.Styles.{CssStyle, offset_of}
use sbt_example.Effects.Verbs.{Arg, missing, number, text, boolean, function, object}

-- A class name: a word.
unfoldable pub is_word : Str → Bool
is_word [] = true
is_word (c ∷ s) = not (is_space c) && is_word s

abbrev pub is_name : Str → Bool
is_name [] = false
is_name (c ∷ s) = is_word (c ∷ s)

-- jQuery's own functions on the classes of an element, with what its documentation says of them
-- for one name.
pub record ClassFunctions : Type 0 where
  pub add : Str → List Str → List Str
  pub remove : Str → List Str → List Str
  pub toggle : Str → List Str → List Str
  pub has : Str → List Str → Bool
  pub has-add :
      (c d : Str) (cs : List Str) → is_name c ≡ true → has d (add c cs) ≡ (same d c || has d cs)
  pub has-remove :
      (c d : Str) (cs : List Str)
      → is_name c ≡ true
      → has d (remove c cs) ≡ (not (same d c) && has d cs)

-- The object `value`, which the visits of a call share.
pub record Change : Type 0 where
  pub add : Option Str
  pub remove : Option Str
  pub toggle : Option Str

pub record ClassAnimation : Type 0 where
  pub offset : CssStyle
  pub duration : Arg
  pub easing : Option ℕ
  pub old_style : Str
  pub change : Change
  pub callback : Option ℕ

-- An element: its classes, its style attribute, what the browser computes from both, the
-- animations that run, those that wait in jQuery's queue, whether the queue is in progress, and the
-- callbacks made so far.
pub record Styled : Type 0 where
  pub classes : List Str
  pub style : Option Str
  pub computed : List Str → Option Str → CssStyle
  pub running : List ClassAnimation
  pub waiting : List ClassAnimation
  pub in_progress : Bool
  pub called : List ℕ

-- `attr("style") || ''`.
abbrev pub style_text : Option Str → Str
style_text none = []
style_text (some s) = s

-- The arguments `easing` and `callback`.
pub data Easing : Type 0 where
  absent : Easing
  named : Str → Easing
  table : ℕ → Easing
  calls : ℕ → Easing

-- `cb`.
abbrev pub callback_of : Easing → Option ℕ → Option ℕ
callback_of (calls f) callback = some f
callback_of _ callback = callback

-- `ea`.
abbrev pub easing_of : Easing → Option ℕ
easing_of (table t) = some t
easing_of _ = none

-- Whether an argument counts as true.
abbrev pub is_given : Arg → Bool
is_given missing = false
is_given (number n) = not (n == 0)
is_given (text []) = false
is_given (text (c ∷ s)) = true
is_given (boolean b) = b
is_given (function s) = true
is_given object = true

-- `if(name) that.…Class(name)`.
abbrev pub on_name : (Str → List Str → List Str) → Option Str → List Str → List Str
on_name f none cs = cs
on_name f (some []) cs = cs
on_name f (some (c ∷ s)) cs = f (c ∷ s) cs

-- jQuery reads an object in place of the duration as all the options of the animation, and drops
-- the completion function behind it; here such options name no completion and no queue.
abbrev pub keeps_function : Arg → Bool
keeps_function object = false
keeps_function _ = true

-- `dequeue`: the next animation starts, if one waits.
unfoldable pub start_next : List ClassAnimation → Styled → Styled
start_next [] e = record e { waiting = []; in_progress = false }
start_next (a ∷ rest) e = record e {
  running = e.running ++ (a ∷ []);
  waiting = rest;
  in_progress = true;
}

unfoldable pub advance : Styled → Styled
advance e = start_next e.waiting e

-- `queue`: a queue that is not in progress starts.
unfoldable pub queue_up : ClassAnimation → Styled → Styled
queue_up a e =
    let longer = record e { waiting = e.waiting ++ (a ∷ []) } in
    if e.in_progress then longer else advance longer

-- `jQuery.isEmptyObject`.
abbrev pub has_entries : CssStyle → Bool
has_entries [] = false
has_entries (p ∷ style) = true

unfoldable pub on_classes : (List Str → List Str) → Styled → Styled
on_classes f e = record e { classes = f e.classes }

module _ (jq : ClassFunctions) where
  abbrev pub toggle_by : Option Str → List Str → Change → Change
  toggle_by none cs v = v
  toggle_by (some []) cs v = v
  toggle_by (some (c ∷ s)) cs v =
      if jq.has (c ∷ s) cs
      then record v { remove = some (c ∷ s) }
      else record v { add = some (c ∷ s) }

  -- `if(value.toggle) { … }`.
  unfoldable pub set_toggle : List Str → Change → Change
  set_toggle cs v = toggle_by v.toggle cs v

  -- `if(value.add) addClass; if(value.remove) removeClass`.
  unfoldable pub put_on : Change → List Str → List Str
  put_on v cs = on_name jq.remove v.remove (on_name jq.add v.add cs)

  -- `if(value.add) removeClass; if(value.remove) addClass`.
  unfoldable pub take_off : Change → List Str → List Str
  take_off v cs = on_name jq.add v.remove (on_name jq.remove v.add cs)

  -- Whether there is a property to animate.
  unfoldable pub is_moving : Change → Styled → Bool
  is_moving v e =
      has_entries
        (offset_of (e.computed e.classes e.style) (e.computed (put_on v e.classes) e.style))

  -- The function that the animation is given for its end, with what the object `value` is then.
  unfoldable pub run_completion : ClassAnimation → Styled → Styled
  run_completion a e =
      if keeps_function a.duration
      then record e {
        style = some a.old_style;
        classes = put_on a.change e.classes;
        called = e.called ++ called_back a.callback;
      }
      else e

  module _ (duration : Arg) (easing : Easing) (callback : Option ℕ) where
    -- The animation from what an element looks like to what it looks like with the change;
    -- `shared` is what the object is when the animation ends.
    unfoldable pub animation_of : Change → Change → Styled → ClassAnimation
    animation_of shared v e = record {
      offset = offset_of (e.computed e.classes e.style) (e.computed (put_on v e.classes) e.style);
      duration = duration;
      easing = easing_of easing;
      old_style = style_text e.style;
      change = shared;
      callback = callback_of easing callback;
    }

    -- The visit of one element. jQuery completes an animation of no properties at once.
    unfoldable pub visit_element : Change → Change → Styled → Styled
    visit_element shared v e =
        let back = record e { classes = take_off v (put_on v e.classes) } in
        if is_moving v e
        then queue_up (animation_of shared v e) back
        else advance (run_completion (animation_of v v e) back)

    unfoldable pub visit_elements : Change → Change → List Styled → List Styled
    visit_elements shared v [] = []
    visit_elements shared v (e ∷ es) =
        let v' = set_toggle e.classes v in visit_element shared v' e ∷ visit_elements shared v' es

  -- What the visits leave in the object.
  unfoldable pub last_change : Change → List Styled → Change
  last_change v [] = v
  last_change v (e ∷ es) = last_change (set_toggle e.classes v) es

  unfoldable pub animate_class : Change → Arg → Easing → Option ℕ → List Styled → List Styled
  animate_class v duration easing callback es =
      visit_elements duration easing callback (last_change v es) v es

  -- A running animation sets the style attribute.
  unfoldable pub frame_on : List ClassAnimation → Str → Styled → Styled
  frame_on [] s e = e
  frame_on (a ∷ rest) s e = record e { style = some s }

  unfoldable pub show_frame : Str → Styled → Styled
  show_frame s e = frame_on e.running s e

  -- The first of the running animations comes to its end.
  unfoldable pub end_first : List ClassAnimation → Styled → Styled
  end_first [] e = e
  end_first (a ∷ rest) e = advance (run_completion a (record e { running = rest }))

  unfoldable pub finish : Styled → Styled
  finish e = end_first e.running e

  unfoldable pub add_class : Str → Arg → Easing → Option ℕ → List Styled → List Styled
  add_class names speed easing callback es =
      if is_given speed
      then animate_class (record { add = some names; remove = none; toggle = none }) speed easing
          callback es
      else map (on_classes (jq.add names)) es

  unfoldable pub remove_class : Str → Arg → Easing → Option ℕ → List Styled → List Styled
  remove_class names speed easing callback es =
      if is_given speed
      then animate_class (record { add = none; remove = some names; toggle = none }) speed easing
          callback es
      else map (on_classes (jq.remove names)) es

  unfoldable pub toggle_class : Str → Arg → Easing → Option ℕ → List Styled → List Styled
  toggle_class names speed easing callback es =
      if is_given speed
      then animate_class (record { add = none; remove = none; toggle = some names }) speed easing
          callback es
      else map (on_classes (jq.toggle names)) es

  unfoldable pub morph : Str → Str → Arg → Easing → Option ℕ → List Styled → List Styled
  morph remove add speed easing callback es =
      animate_class (record { add = some add; remove = some remove; toggle = none }) speed easing
        callback es

  unfoldable pub switch_class : Str → Str → Arg → Easing → Option ℕ → List Styled → List Styled
  switch_class = morph
