-- ===== src/Effects/Flash/Callbacks.antt =====
-- The callbacks of flashes (effects.highlight.js) and their order.
use mathlib.Core.Path.{subst}
use sbt_example.Common.{
  ℕ, ◌≡◌, refl, sym, ap, ◌∙◌, Option, none, some, List, [], ◌∷◌, ◌++◌, append_assoc, append-nil,
}
use sbt_example.Effects.Flash.{
  Flash, Animation, Element, save, restore, show_element, hide_if, start_flash, called_back,
  complete, next_flash, dequeue, enqueue, end_animation, Event, flashed, ended, happen, happen_all,
}

abbrev pub of_running : Option Animation → List ℕ
of_running none = []
of_running (some a) = called_back a.callback

unfoldable pub of_queue : List Flash → List ℕ
of_queue [] = []
of_queue (o ∷ os) = called_back o.callback ++ of_queue os

-- The callbacks so far and those to come.
abbrev pub callbacks : Element → List ℕ
callbacks el = el.called ++ (of_running el.running ++ of_queue el.queue)

-- The callbacks that the events ask for.
unfoldable pub asked : List Event → List ℕ
asked [] = []
asked (flashed o ∷ es) = called_back o.callback ++ asked es
asked (ended ∷ es) = asked es

of_queue-append : (os ps : List Flash) → of_queue (os ++ ps) ≡ of_queue os ++ of_queue ps
unfolding of_queue
of_queue-append [] ps = refl
of_queue-append (o ∷ os) ps =
    ap (λ l. called_back o.callback ++ l) (of_queue-append os ps)
    ∙ sym (append_assoc (called_back o.callback) (of_queue os) (of_queue ps))

callbacks-next_flash :
    (os : List Flash) (el : Element)
    → el.running ≡ none
    → el.queue ≡ os
    → callbacks (next_flash os el) ≡ el.called ++ of_queue os
unfolding next_flash start_flash save show_element of_queue
callbacks-next_flash [] el e q = rw (e, q, of_queue) refl
callbacks-next_flash (o ∷ os) el e q = refl

-- A queue that is idle is empty.
abbrev pub IsIdleEmpty : Option Animation → List Flash → Type 0
IsIdleEmpty none os = os ≡ []
IsIdleEmpty (some a) os = Unit

callbacks-enqueue :
    (r : Option Animation) (o : Flash) (el : Element)
    → el.running ≡ r
    → IsIdleEmpty r el.queue
    → (callbacks (enqueue r o el) ≡ callbacks el ++ called_back o.callback)
      × IsIdleEmpty (enqueue r o el).running (enqueue r o el).queue
unfolding enqueue start_flash save show_element of_queue
callbacks-enqueue none o el e h = (simp (e, h, of_queue, append-nil), tt)
callbacks-enqueue (some a) o el e h = (
  simp (of_queue-append, of_queue, append_assoc, append-nil),
  subst (λ r. IsIdleEmpty r (el.queue ++ o ∷ [])) (sym e) tt,
)

next_flash-IsIdleEmpty :
    (os : List Flash) (el : Element)
    → el.running ≡ none
    → el.queue ≡ os
    → IsIdleEmpty (next_flash os el).running (next_flash os el).queue
unfolding next_flash start_flash save show_element
next_flash-IsIdleEmpty [] el e q = subst (λ r. IsIdleEmpty r el.queue) (sym e) q
next_flash-IsIdleEmpty (o ∷ os) el e q = tt

callbacks-end_animation :
    (r : Option Animation) (el : Element)
    → el.running ≡ r
    → IsIdleEmpty r el.queue
    → (callbacks (end_animation r el) ≡ callbacks el)
      × IsIdleEmpty (end_animation r el).running (end_animation r el).queue
unfolding end_animation dequeue complete restore hide_if
callbacks-end_animation none el e h = (refl, subst (λ r. IsIdleEmpty r el.queue) (sym e) h)
callbacks-end_animation (some a) el e h = (
  callbacks-next_flash el.queue (complete a el) refl refl
      ∙ append_assoc el.called (called_back a.callback) (of_queue el.queue)
      ∙ sym (ap (λ r. el.called ++ (of_running r ++ of_queue el.queue)) e),
  next_flash-IsIdleEmpty el.queue (complete a el) refl refl,
)

-- On a heading whose queue is empty when nothing runs, flashes call back in the order in which
-- they were asked for: the callbacks made, that of the running flash and those of the waiting ones
-- are the earlier ones, followed by those of the flashes asked for since.
pub callbacks-happen_all :
    (events : List Event) (el : Element)
    → IsIdleEmpty el.running el.queue
    → callbacks (happen_all events el) ≡ callbacks el ++ asked events
unfolding happen_all happen asked
callbacks-happen_all [] el h = sym (append-nil (callbacks el))
callbacks-happen_all (flashed o ∷ es) el h =
    let (grown, empty) = callbacks-enqueue el.running o el refl h in
    callbacks-happen_all es (enqueue el.running o el) empty
    ∙ ap (λ l. l ++ asked es) grown
    ∙ append_assoc (callbacks el) (called_back o.callback) (asked es)
callbacks-happen_all (ended ∷ es) el h =
    let (kept, empty) = callbacks-end_animation el.running el refl h in
    callbacks-happen_all es (end_animation el.running el) empty ∙ ap (λ l. l ++ asked es) kept

-- An element whose queue is empty when nothing runs stays one.
pub happen_all-IsIdleEmpty :
    (events : List Event) (el : Element)
    → IsIdleEmpty el.running el.queue
    → IsIdleEmpty (happen_all events el).running (happen_all events el).queue
unfolding happen_all happen
happen_all-IsIdleEmpty [] el h = h
happen_all-IsIdleEmpty (flashed o ∷ es) el h =
    happen_all-IsIdleEmpty es (enqueue el.running o el) (callbacks-enqueue el.running o el refl h).1
happen_all-IsIdleEmpty (ended ∷ es) el h =
    happen_all-IsIdleEmpty es (end_animation el.running el)
      (callbacks-end_animation el.running el refl h).1
