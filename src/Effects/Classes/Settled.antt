-- ===== src/Effects/Classes/Settled.antt =====
-- The classes of an element when an animation of `animateClass` (effects.core.js) is over.
use sbt_example.Common.{
  ℕ, ◌≡◌, refl, ap, ◌∙◌, Str, same, Bool, true, false, not, ◌&&◌, ◌||◌, Option, none, some, List,
  [], ◌∷◌, ◌++◌, if◌then◌else◌,
}
use sbt_example.Effects.Flash.{called_back}
use sbt_example.Effects.Verbs.{Arg}
use sbt_example.Effects.Classes.{
  ClassFunctions, is_name, Change, ClassAnimation, Styled, style_text, Easing, callback_of, on_name,
  put_on, take_off, animation_of, visit_element, show_frame, finish, keeps_function, start_next,
  advance, queue_up, frame_on, end_first, is_moving, run_completion,
}

-- Whether an argument names a class.
unfoldable pub names : Option Str → Str → Bool
names none d = false
names (some []) d = false
names (some (c ∷ s)) d = same d (c ∷ s)

-- What is named is one class, or nothing.
unfoldable pub is_single : Option Str → Bool
is_single none = true
is_single (some []) = true
is_single (some (c ∷ s)) = is_name (c ∷ s)

-- Whether a class stands at an element to which a change was made.
abbrev pub changed : Change → Str → Bool → Bool
changed v d before = not (names v.remove d) && (names v.add d || before)

-- What stands where the change does not show: after the visit and the end of the animation.
recover :
    (add remove last_add last_remove h : Bool)
    → (add ≡ true → last_add ≡ true)
    → (remove ≡ true → last_remove ≡ true)
    → (not last_remove && (last_add || (remove || (not add && (not remove && (add || h))))))
      ≡ (not last_remove && (last_add || h))
recover add remove last_add true h p q = refl
recover add remove true false h p q = refl
recover false false false false h p q = refl
recover true remove false false h p q = let bad = p refl in cc
recover false true false false h p q = let bad = q refl in cc

-- Nothing runs and nothing waits.
abbrev pub IsStill : Styled → Type 0
IsStill e = (e.running ≡ []) × (e.waiting ≡ []) × (e.in_progress ≡ false)

advance_still :
    (e : Styled) → e.waiting ≡ [] → advance e ≡ record e { waiting = []; in_progress = false }
unfolding advance start_next
advance_still e h = ap (λ r. start_next r e) h

queue_up_still :
    (a : ClassAnimation) (e : Styled)
    → IsStill e
    → queue_up a e ≡ record e { running = a ∷ []; waiting = []; in_progress = true }
unfolding queue_up advance start_next
queue_up_still a e (r, w, p) =
    let longer = record e { waiting = e.waiting ++ (a ∷ []) } in
    ap (λ b. if b then longer else advance longer) p
    ∙ ap (λ l. start_next (l ++ (a ∷ [])) (record e { waiting = l ++ (a ∷ []) })) w
    ∙ ap (λ l. record e { running = l ++ (a ∷ []); waiting = []; in_progress = true }) r

module _ (jq : ClassFunctions) where
  on_name-add :
      (o : Option Str) (d : Str) (cs : List Str)
      → is_single o ≡ true
      → jq.has d (on_name jq.add o cs) ≡ (names o d || jq.has d cs)
  unfolding names is_single
  on_name-add none d cs h = refl
  on_name-add (some []) d cs h = refl
  on_name-add (some (c ∷ s)) d cs h = jq.has-add (c ∷ s) d cs h

  on_name-remove :
      (o : Option Str) (d : Str) (cs : List Str)
      → is_single o ≡ true
      → jq.has d (on_name jq.remove o cs) ≡ (not (names o d) && jq.has d cs)
  unfolding names is_single
  on_name-remove none d cs h = refl
  on_name-remove (some []) d cs h = refl
  on_name-remove (some (c ∷ s)) d cs h = jq.has-remove (c ∷ s) d cs h

  has-put_on :
      (v : Change) (d : Str) (cs : List Str)
      → is_single v.add ≡ true
      → is_single v.remove ≡ true
      → jq.has d (put_on jq v cs) ≡ changed v d (jq.has d cs)
  unfolding put_on
  has-put_on v d cs a r =
      on_name-remove v.remove d (on_name jq.add v.add cs) r
      ∙ ap (λ b. not (names v.remove d) && b) (on_name-add v.add d cs a)

  has-take_off :
      (v : Change) (d : Str) (cs : List Str)
      → is_single v.add ≡ true
      → is_single v.remove ≡ true
      → jq.has d (take_off jq v cs) ≡ (names v.remove d || (not (names v.add d) && jq.has d cs))
  unfolding take_off
  has-take_off v d cs a r =
      on_name-add v.remove d (on_name jq.remove v.add cs) r
      ∙ ap (λ b. names v.remove d || b) (on_name-remove v.add d cs a)

  show_frame_idle : (s : Str) (e : Styled) → e.running ≡ [] → show_frame jq s e ≡ e
  unfolding show_frame frame_on
  show_frame_idle s e h = ap (λ r. frame_on jq r s e) h

  show_frame_running :
      (s : Str) (e : Styled) (a : ClassAnimation) (rest : List ClassAnimation)
      → e.running ≡ a ∷ rest
      → show_frame jq s e ≡ record e { style = some s }
  unfolding show_frame frame_on
  show_frame_running s e a rest h = ap (λ r. frame_on jq r s e) h

  abbrev completed : Bool → ClassAnimation → Styled → Styled
  completed b a e =
      if b
      then record e {
        style = some a.old_style;
        classes = put_on jq a.change e.classes;
        called = e.called ++ called_back a.callback;
      }
      else e

  ends_one :
      (e : Styled) (a : ClassAnimation) (rest : List ClassAnimation)
      → e.running ≡ a ∷ rest
      → keeps_function a.duration ≡ true
      → finish jq e
        ≡ advance (record e {
          style = some a.old_style;
          classes = put_on jq a.change e.classes;
          running = rest;
          called = e.called ++ called_back a.callback;
        })
  unfolding finish end_first run_completion
  ends_one e a rest h k =
      ap (λ r. end_first jq r e) h
      ∙ ap (λ b. advance (completed b a (record e { running = rest }))) k

  -- The frames of the first running animation, then its end.
  unfoldable pub settle : List Str → Styled → Styled
  settle [] e = finish jq e
  settle (s ∷ frames) e = settle frames (show_frame jq s e)

  settle_idle : (frames : List Str) (e : Styled) → e.running ≡ [] → settle frames e ≡ e
  unfolding settle finish end_first
  settle_idle [] e h = ap (λ r. end_first jq r e) h
  settle_idle (s ∷ frames) e h = ap (settle frames) (show_frame_idle s e h) ∙ settle_idle frames e h

  settle_lem :
      (frames : List Str) (e : Styled) (a : ClassAnimation) (rest : List ClassAnimation)
      → e.running ≡ a ∷ rest
      → keeps_function a.duration ≡ true
      → settle frames e
        ≡ advance (record e {
          style = some a.old_style;
          classes = put_on jq a.change e.classes;
          running = rest;
          called = e.called ++ called_back a.callback;
        })
  unfolding settle
  settle_lem [] e a rest h k = ends_one e a rest h k
  settle_lem (s ∷ frames) e a rest h k =
      ap (settle frames) (show_frame_running s e a rest h)
      ∙ settle_lem frames (record e { style = some s }) a rest h k

  module _ (duration : Arg) (easing : Easing) (callback : Option ℕ) (shared v : Change)
      (frames : List Str) (e : Styled) (keeps : keeps_function duration ≡ true)
      (still : IsStill e) where
    back : Styled
    back = record e { classes = take_off jq v (put_on jq v e.classes) }

    -- The visit, by whether there is a property to animate.
    visited : Bool → Styled
    visited moves =
        if moves
        then queue_up (animation_of jq duration easing callback shared v e) back
        else advance (run_completion jq (animation_of jq duration easing callback v v e) back)

    -- What stands when the animation is over: the last change was made once more.
    over : Change → Styled
    over last = record e {
      style = some (style_text e.style);
      classes = put_on jq last (take_off jq v (put_on jq v e.classes));
      running = [];
      waiting = [];
      in_progress = false;
      called = e.called ++ called_back (callback_of easing callback);
    }

    settle-visited :
        (moves : Bool) → settle frames (visited moves) ≡ over (if moves then shared else v)
    unfolding visited over back animation_of run_completion
    settle-visited true =
        let a = animation_of jq duration easing callback shared v e in
        let started = record back { running = a ∷ []; waiting = []; in_progress = true } in
        ap (settle frames) (queue_up_still a back still)
        ∙ settle_lem frames started a [] refl keeps
        ∙ advance_still _ refl
    settle-visited false =
        let a = animation_of jq duration easing callback v v e in
        let at_once = record (over v) { running = e.running } in
        ap (settle frames)
          (ap (λ b. advance (completed b a back)) keeps ∙ advance_still _ (still.1))
        ∙ settle_idle frames at_once (still.0)
        ∙ ap (λ r. record (over v) { running = r }) (still.0)

    visit_result :
        settle frames (visit_element jq duration easing callback shared v e)
        ≡ over (if is_moving jq v e then shared else v)
    unfolding visit_element visited back
    visit_result = settle-visited (is_moving jq v e)

  -- An element before and after: `stands` says which classes it has at the end, by those that it
  -- had; the style attribute reads as before, nothing runs or waits, and a callback was made once.
  abbrev pub IsSettled : (Str → Bool → Bool) → Option ℕ → Styled → Styled → Type 0
  IsSettled stands callback e after =
      ((d : Str) → jq.has d after.classes ≡ stands d (jq.has d e.classes))
      × (style_text after.style ≡ style_text e.style)
      × IsStill after
      × (after.called ≡ e.called ++ called_back callback)

  pub visit_element-IsSettled :
      (duration : Arg) (easing : Easing) (callback : Option ℕ) (shared v last : Change)
      → keeps_function duration ≡ true
      → is_single v.add ≡ true
      → is_single v.remove ≡ true
      → is_single last.add ≡ true
      → is_single last.remove ≡ true
      → ((d : Str) → names v.add d ≡ true → names last.add d ≡ true)
      → ((d : Str) → names v.remove d ≡ true → names last.remove d ≡ true)
      → (frames : List Str) (e : Styled) → IsStill e
      → (if is_moving jq v e then shared else v) ≡ last
      → IsSettled
          (changed last)
          (callback_of easing callback)
          e
          (settle frames (visit_element jq duration easing callback shared v e))
  unfolding over
  visit_element-IsSettled duration easing callback shared v last k va vr sa sr adds removes frames e
        still made =
      let ended = visit_result duration easing callback shared v frames e k still in
      (
        (λ d.
            ap (λ (x : Styled). jq.has d x.classes) ended
            ∙ (ap (λ w. jq.has d (put_on jq w (take_off jq v (put_on jq v e.classes)))) made
                ∙ (has-put_on last d _ sa sr
                    ∙ (ap (changed last d) (
                          has-take_off v d _ va vr
                          ∙ ap (λ b. names v.remove d || (not (names v.add d) && b))
                              (has-put_on v d e.classes va vr))
                        ∙ recover (names v.add d) (names v.remove d) (names last.add d)
                            (names last.remove d) _ (adds d) (removes d))))),
        ap (λ (x : Styled). style_text x.style) ended,
        (
          ap (λ (x : Styled). x.running) ended,
          ap (λ (x : Styled). x.waiting) ended,
          ap (λ (x : Styled). x.in_progress) ended,
        ),
        ap (λ (x : Styled). x.called) ended,
      )
