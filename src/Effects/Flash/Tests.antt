-- ===== src/Effects/Flash/Tests.antt =====
-- Runs of flashes (effects.highlight.js) on a heading.
use sbt_example.Common.{
  suc, length, ◌≡◌, refl, units, false, true, none, some, List, [], ◌∷◌, ◌++◌, same,
}
use sbt_example.Effects.Flash.{
  Flash, Element, property, set_property, save, restore, show_element, hide_if, set_mode, option_or,
  shift, start_flash, complete, next_flash, dequeue, enqueue, end_animation, Event, flashed, ended,
  happen, happen_all,
}
use sbt_example.Effects.Flash.Callbacks.{callbacks, asked, IsIdleEmpty, callbacks-happen_all}
use sbt_example.Effects.Flash.Endings.{endings, settled_lem}

abbrev heading : Element
heading = record {
  style = (units "backgroundColor", units "white") ∷ (units "color", units "red") ∷ [];
  storage = [];
  hidden = false;
  noted = [];
  shows = λ display noted. (display, noted);
  notes = λ display noted. noted;
  queue = [];
  running = none;
  called = [];
}

-- The flash of scrollTo.js, and one that hides the heading.
abbrev scrolled : Flash
scrolled = record { mode = none; color = some (units "#FFCC85"); callback = some 1 }

abbrev hiding : Flash
hiding = record { mode = some (units "toggle"); color = none; callback = some 2 }

abbrev events : List Event
events = flashed scrolled ∷ flashed hiding ∷ ended ∷ ended ∷ []

during :
    property (units "backgroundColor") (happen (flashed scrolled) heading).style ≡ units "#FFCC85"
unfolding happen enqueue start_flash save show_element shift property set_property option_or same
during = refl

hides : (happen_all events heading).hidden ≡ true
unfolding happen_all happen enqueue end_animation dequeue next_flash complete restore hide_if
    start_flash save show_element set_mode option_or same
hides = refl

idle : (happen_all events heading).running ≡ none
unfolding happen_all happen enqueue end_animation dequeue next_flash complete restore hide_if
    start_flash save show_element
idle = refl

callbacks-happen_all_example :
    callbacks (happen_all events heading) ≡ callbacks heading ++ asked events
callbacks-happen_all_example = callbacks-happen_all events heading refl

-- A heading on which one flash runs and one waits.
abbrev busy : Element
busy = happen (flashed hiding) (happen (flashed scrolled) heading)

busy_lem : IsIdleEmpty busy.running busy.queue
unfolding happen enqueue start_flash save show_element
busy_lem = tt

settled_lem_example :
    let after = happen_all (endings (suc (length busy.queue))) busy in
    (after.running ≡ none) × (after.queue ≡ []) × (after.called ≡ callbacks busy)
settled_lem_example = settled_lem busy busy_lem
