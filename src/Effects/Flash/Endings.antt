-- ===== src/Effects/Flash/Endings.antt =====
-- Flashes (effects.highlight.js) that come to their end.
use mathlib.Core.Path.{subst}
use sbt_example.Common.{
  ℕ, zero, suc, ◌≡◌, refl, sym, ap, ◌∙◌, none, some, List, [], ◌∷◌, ◌++◌, append-nil, length,
  Option-cases, inl, inr,
}
use sbt_example.Effects.Flash.{
  Flash, Animation, Element, save, restore, show_element, hide_if, start_flash, complete,
  next_flash, dequeue, end_animation, Event, ended, happen, happen_all,
}
use sbt_example.Effects.Flash.Callbacks.{
  of_running, of_queue, callbacks, asked, IsIdleEmpty, callbacks-happen_all,
}

-- The end of an animation, a number of times.
unfoldable pub endings : ℕ → List Event
endings zero = []
endings (suc n) = ended ∷ endings n

asked-endings : (n : ℕ) → asked (endings n) ≡ []
unfolding asked endings
asked-endings zero = refl
asked-endings (suc n) = asked-endings n

-- Nothing runs and nothing waits.
abbrev pub IsSettled : Element → Type 0
IsSettled el = (el.running ≡ none) × (el.queue ≡ [])

settles :
    (os : List Flash) (a : Animation) (el : Element)
    → el.running ≡ some a
    → el.queue ≡ os
    → IsSettled (happen_all (endings (suc (length os))) el)
unfolding happen_all happen endings end_animation dequeue complete restore hide_if next_flash
    start_flash save show_element
settles [] a el e q =
    subst (λ r. IsSettled (end_animation r el)) (sym e)
      (subst (λ os. IsSettled (next_flash os (complete a el))) (sym q) (refl, q))
settles (o ∷ os) a el e q =
    subst (λ r. IsSettled (happen_all (endings (suc (length os))) (end_animation r el))) (sym e)
      (subst
        (λ ps. IsSettled (happen_all (endings (suc (length os))) (next_flash ps (complete a el))))
        (sym q) (settles os _ (start_flash o (record (complete a el) { queue = os })) refl refl))

settles_idle : (el : Element) → IsSettled el → IsSettled (happen_all (endings 1) el)
unfolding happen_all happen endings end_animation
settles_idle el (e, q) = subst (λ r. IsSettled (end_animation r el)) (sym e) (e, q)

callbacks-IsSettled : (el : Element) → IsSettled el → callbacks el ≡ el.called
unfolding of_queue
callbacks-IsSettled el (e, q) =
    ap (λ r. el.called ++ (of_running r ++ of_queue el.queue)) e
    ∙ ap (λ os. el.called ++ of_queue os) q
    ∙ append-nil el.called

settles_all :
    (el : Element)
    → IsIdleEmpty el.running el.queue
    → IsSettled (happen_all (endings (suc (length el.queue))) el)
settles_all el h = elim (Option-cases el.running) [
  | inl e ↦
      let q = subst (λ r. IsIdleEmpty r el.queue) e h in
      subst (λ os. IsSettled (happen_all (endings (suc (length os))) el)) (sym q)
        (settles_idle el (e, q))
  | inr (a, e) ↦ settles el.queue a el e refl
]

-- On a heading whose queue is empty when nothing runs, let one animation more come to its end than
-- flashes are waiting. Then nothing runs and nothing waits, and every flash has called back, in the
-- order in which they were asked for.
pub settled_lem :
    (el : Element)
    → IsIdleEmpty el.running el.queue
    → let after = happen_all (endings (suc (length el.queue))) el in
      (after.running ≡ none) × (after.queue ≡ []) × (after.called ≡ callbacks el)
settled_lem el h =
    let (idle, empty) = settles_all el h in
    let es = endings (suc (length el.queue)) in
    (
      idle,
      empty,
      sym (callbacks-IsSettled (happen_all es el) (idle, empty))
          ∙ callbacks-happen_all es el h
          ∙ ap (λ l. callbacks el ++ l) (asked-endings (suc (length el.queue)))
          ∙ append-nil (callbacks el),
    )
