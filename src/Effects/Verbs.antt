-- ===== src/Effects/Verbs.antt =====
-- effects.core.js: `effect`, and `show`, `hide` and `toggle`, which it puts in front of jQuery's own
-- functions of these names.
pub mod Laws
mod Tests
use sbt_example.Common.{
  ℕ, List, Str, units, same, Bool, true, false, not, ◌&&◌, ◌||◌, Option, none, some, [], ◌∷◌, ◌==◌,
  if◌then◌else◌,
}
use sbt_example.Js.Text.{index_of, is_found}
use sbt_example.Doctools.Query.{inherits, listed}
use sbt_example.Effects.Flash.{Flash, Element, enqueue}

-- A first argument: `undefined` or null, a number, a text, a Boolean, a function by its source, or
-- another object.
pub data Arg : Type 0 where
  missing : Arg
  number : ℕ → Arg
  text : Str → Arg
  boolean : Bool → Arg
  function : Str → Arg
  object : Arg

-- The options of an effect that the code or the flash reads.
pub record Settings : Type 0 where
  pub mode : Option Str
  pub color : Option Str
  pub callback : Option ℕ

abbrev pub no_settings : Settings
no_settings = record { mode = none; color = none; callback = none }

pub data Verb : Type 0 where
  show hide toggle : Verb

abbrev pub verb_mode : Verb → Str
verb_mode show = units "show"
verb_mode hide = units "hide"
verb_mode toggle = units "toggle"

-- `/(slow|normal|fast)/.test(…)`.
unfoldable pub names_speed : Str → Bool
names_speed s =
    is_found (index_of (units "slow") s)
    || is_found (index_of (units "normal") s)
    || is_found (index_of (units "fast") s)

abbrev pub is_toggle : Verb → Bool
is_toggle toggle = true
is_toggle _ = false

-- The test of the first argument: whether jQuery's own function is called.
unfoldable pub is_plain : Verb → Arg → Bool
is_plain verb missing = true
is_plain verb (number n) = true
is_plain verb (text []) = true
is_plain verb (text (c ∷ s)) = names_speed (c ∷ s)
is_plain verb (boolean b) = not b || names_speed (units "true")
is_plain verb (function source) = names_speed source || is_toggle verb
is_plain verb object = names_speed (units "[object Object]")

-- What is called: jQuery's own function, the flash, another property of `$.effects`, or nothing.
pub data Call : Type 0 where
  plain : Call
  flashes : Flash → Call
  helper : Str → Call
  nothing : Call

-- The functions of `$.effects` besides the flash.
abbrev pub helpers : List Str
helpers =
    units "save"
    ∷ units "restore"
    ∷ units "setMode"
    ∷ units "getBaseline"
    ∷ units "createWrapper"
    ∷ units "removeWrapper"
    ∷ units "setTransition"
    ∷ units "animateClass"
    ∷ []

-- The name under which an argument is looked up.
unfoldable pub key_of : Arg → Str
key_of missing = units "undefined"
key_of (number n) = []
key_of (text s) = s
key_of (boolean true) = units "true"
key_of (boolean false) = units "false"
key_of (function source) = source
key_of object = units "[object Object]"

-- `effect`; the callback is the last argument.
unfoldable pub effect : Str → Settings → Option ℕ → Call
effect fx o callback =
    if same fx (units "highlight")
    then flashes (record { mode = o.mode; color = o.color; callback = callback })
    else if listed fx helpers || inherits fx
    then helper fx
    else nothing

-- `arguments[3] || o.callback`.
unfoldable pub callback_or : Option ℕ → Option ℕ → Option ℕ
callback_or none other = other
callback_or (some c) other = some c

-- `arguments[1] || {}`.
unfoldable pub settings_or : Option Settings → Settings
settings_or none = no_settings
settings_or (some o) = o

-- `show`, `hide` or `toggle` with its first, second and fourth argument.
unfoldable pub call : Verb → Arg → Option Settings → Option ℕ → Call
call verb fx options callback =
    let o = settings_or options in
    if is_plain verb fx
    then plain
    else effect (key_of fx) (record o { mode = some (verb_mode verb) })
        (callback_or callback o.callback)

-- What a call does to an element: the flash is put in its queue, and jQuery's own function is
-- `own`. What the helpers do with the arguments of an effect is left open.
module _ (own : Verb → Element → Element) where
  unfoldable pub apply : Verb → Call → Element → Option Element
  apply verb plain el = some (own verb el)
  apply verb (flashes o) el = some (enqueue el.running o el)
  apply verb (helper name) el = none
  apply verb nothing el = some el
