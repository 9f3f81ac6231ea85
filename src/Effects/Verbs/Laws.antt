-- ===== src/Effects/Verbs/Laws.antt =====
-- `show`, `hide` and `toggle` (effects.core.js) by the flash (effects.highlight.js).
use mathlib.Core.Path.{subst}
use sbt_example.Common.{
  ℕ, ◌≡◌, refl, ap, sym, ◌∙◌, units, same, Bool, true, false, not, Option, none, some, [], ◌++◌,
}
use sbt_example.Js.Text.{index_of, is_found}
use sbt_example.Effects.Flash.{
  Flash, Animation, Element, animation_to, save, restore, show_element, hide_if, start_flash,
  set_mode, option_or, called_back, complete, next_flash, dequeue, enqueue, end_animation, ended,
  happen,
}
use sbt_example.Effects.Verbs.{
  Verb, show, hide, toggle, verb_mode, Settings, text, is_plain, names_speed, key_of, effect,
  settings_or, callback_or, call, flashes, apply,
}

-- Whether an element is hidden after a verb.
abbrev pub hidden_by : Verb → Bool → Bool
hidden_by show hidden = false
hidden_by hide hidden = true
hidden_by toggle hidden = not hidden

flash_of : Verb → Option Settings → Option ℕ → Flash
flash_of verb options callback =
    let o = settings_or options in
    record {
      mode = some (verb_mode verb);
      color = o.color;
      callback = callback_or callback o.callback;
    }

call-highlight :
    (verb : Verb) (options : Option Settings) (callback : Option ℕ)
    → call verb (text (units "highlight")) options callback
      ≡ flashes (flash_of verb options callback)
unfolding call effect key_of is_plain names_speed is_found index_of same flash_of
call-highlight verb options callback = refl

mode_hides :
    (verb : Verb) (hidden : Bool)
    → same (set_mode hidden (option_or (units "show") (some (verb_mode verb)))) (units "hide")
      ≡ hidden_by verb hidden
unfolding set_mode option_or same
mode_hides show true = refl
mode_hides show false = refl
mode_hides hide true = refl
mode_hides hide false = refl
mode_hides toggle true = refl
mode_hides toggle false = refl

-- An element when a flash of it is over.
abbrev pub IsFlashed : Flash → Element → Element → Type 0
IsFlashed o el after =
    (after.hidden ≡ same (set_mode el.hidden (option_or (units "show") o.mode)) (units "hide"))
    × (after.running ≡ none)
    × (after.called ≡ el.called ++ called_back o.callback)

enqueue-IsFlashed :
    (o : Flash) (el : Element)
    → el.running ≡ none
    → el.queue ≡ []
    → IsFlashed o el (happen ended (enqueue el.running o el))
unfolding happen enqueue end_animation dequeue next_flash complete restore start_flash save
    show_element hide_if
enqueue-IsFlashed o el e q =
    let mode = set_mode el.hidden (option_or (units "show") o.mode) in
    let a : Animation = record { mode = mode; target = animation_to mode; callback = o.callback } in
    subst (λ r. IsFlashed o el (happen ended (enqueue r o el))) (sym e)
      (subst (λ os. IsFlashed o el (next_flash os (complete a (start_flash o el)))) (sym q)
        (refl, refl, refl))

module _ (own : Verb → Element → Element) where
  -- Let nothing run on an element and nothing wait. When `show`, `hide` or `toggle` was called on
  -- it with "highlight" and the animation is over, it is shown, hidden or the other way round than
  -- before; nothing runs, and the callback given last or, without one, that of the options has
  -- been called.
  pub call-hidden :
      (verb : Verb) (options : Option Settings) (callback : Option ℕ) (el : Element)
      → el.running ≡ none
      → el.queue ≡ []
      → (during : Element) × (apply own verb
            (call verb (text (units "highlight")) options callback)
            el
          ≡ some during)
        × ((happen ended during).hidden ≡ hidden_by verb el.hidden)
        × ((happen ended during).running ≡ none)
        × ((happen ended during).called
            ≡ el.called ++ called_back (callback_or callback (settings_or options).callback))
  unfolding apply flash_of
  call-hidden verb options callback el e q =
      let o = flash_of verb options callback in
      let (hidden, idle, called) = enqueue-IsFlashed o el e q in
      (
        enqueue el.running o el,
        ap (λ c. apply own verb c el) (call-highlight verb options callback),
        hidden ∙ mode_hides verb el.hidden,
        idle,
        called,
      )
