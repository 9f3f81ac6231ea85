-- ===== src/Effects/Verbs/Tests.antt =====
-- Calls of `show`, `hide` and `toggle` (effects.core.js).
use sbt_example.Common.{◌≡◌, refl, Str, units, same, false, none, some, [], ◌∷◌}
use sbt_example.Js.Text.{index_of, is_found}
use sbt_example.Doctools.Query.{inherits, listed}
use sbt_example.Effects.Flash.{Element, called_back, ended, happen}
use sbt_example.Effects.Verbs.{
  Verb, show, hide, toggle, missing, function, text, no_settings, is_plain, names_speed, key_of,
  effect, settings_or, callback_or, call, Call, plain, helper, nothing, apply,
}
use sbt_example.Effects.Verbs.Laws.{hidden_by, call-hidden}

called : Verb → Str → Call
unfolding call effect key_of is_plain names_speed is_found index_of same listed inherits settings_or
called verb s = call verb (text s) none none

-- The pattern of the speeds is found inside a longer name too.
calls_own : called show (units "slowly") ≡ plain
unfolding called
calls_own = refl

calls_nothing : called hide (units "explode") ≡ nothing
unfolding called
calls_nothing = refl

calls_helper : called toggle (units "setMode") ≡ helper (units "setMode")
unfolding called
calls_helper = refl

-- The scripts of the site call `toggle` and `show` without arguments.
calls_without : call toggle missing none none ≡ plain
unfolding call is_plain
calls_without = refl

-- Of the three verbs only `toggle` passes on a function.
calls_function : call hide (function (units "x => x")) none none ≡ nothing
unfolding call is_plain effect key_of names_speed is_found index_of same listed inherits
calls_function = refl

abbrev element : Element
element = record {
  style = [];
  storage = [];
  hidden = false;
  noted = [];
  shows = λ display noted. (display, noted);
  notes = λ display noted. noted;
  queue = [];
  running = none;
  called = 7 ∷ [];
}

-- jQuery's own function does nothing here.
abbrev idle : Verb → Element → Element
idle verb el = el

call-hidden_example :
    (during : Element) × (apply idle toggle
        (call toggle
          (text (units "highlight"))
          (some (record no_settings { callback = some 1 }))
          none)
        element
      ≡ some during)
    × ((happen ended during).hidden ≡ hidden_by toggle false)
    × ((happen ended during).running ≡ none)
    × ((happen ended during).called
        ≡ 7
          ∷ called_back (
              callback_or none
                (settings_or (some (record no_settings { callback = some 1 }))).callback))
call-hidden_example =
    call-hidden idle toggle (some (record no_settings { callback = some 1 })) none element refl refl
