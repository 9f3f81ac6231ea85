-- ===== src/Effects/Flash.antt =====
-- effects.core.js: `save`, `restore`, `setMode`; effects.highlight.js: the effect `highlight`. The
-- effect is a function in the element's queue, which jQuery starts when it comes first and which
-- calls `dequeue` when its animation is complete.
pub mod Laws
pub mod Callbacks
pub mod Endings
mod Tests
use sbt_example.Common.{
  ℕ, Str, units, same, Bool, true, false, Option, none, some, List, [], ◌∷◌, ◌++◌, ◌||◌,
  if◌then◌else◌,
}

-- The style properties of an element by name, and what `$.data` has stored under the name.
abbrev pub Style : Type 0
Style = List (Str × Str)

-- `o.options` and the callback, by a number.
pub record Flash : Type 0 where
  pub mode : Option Str
  pub color : Option Str
  pub callback : Option ℕ

-- A running animation: its mode, its target and its callback.
pub record Animation : Type 0 where
  pub mode : Str
  pub target : Style
  pub callback : Option ℕ

-- An element of a page; the queue holds the flashes behind the running one, and `called` the
-- callbacks so far. jQuery's own `show` and `hide` change the `display` of its style and the display
-- that jQuery has noted for it, `noted`: from both, `shows` says what `show` makes of the one and the
-- other, and `notes` what `hide` makes of the latter.
pub record Element : Type 0 where
  pub style : Style
  pub storage : Style
  pub hidden : Bool
  pub noted : Str
  pub shows : Str → Str → Str × Str
  pub notes : Str → Str → Str
  pub queue : List Flash
  pub running : Option Animation
  pub called : List ℕ

-- A missing property is the empty text.
unfoldable pub property : Str → Style → Str
property k [] = []
property k ((j, v) ∷ ps) = if same k j then v else property k ps

unfoldable pub set_property : Str → Str → Style → Style
set_property k v [] = (k, v) ∷ []
set_property k v ((j, w) ∷ ps) =
    let rest = set_property k v ps in if same k j then (j, v) ∷ ps else (j, w) ∷ rest

abbrev pub props : List Str
props = units "backgroundImage" ∷ units "backgroundColor" ∷ units "opacity" ∷ []

-- The named properties of one style, written over those of another.
unfoldable pub copy : List Str → Style → Style → Style
copy [] from to = to
copy (k ∷ set) from to = copy set from (set_property k (property k from) to)

-- The names in `set` are not null.
unfoldable pub save : List Str → Element → Element
save set el = record el { storage = copy set el.style el.storage }

unfoldable pub restore : List Str → Element → Element
restore set el = record el { style = copy set el.storage el.style }

unfoldable pub set_mode : Bool → Str → Str
set_mode hidden mode =
    if same mode (units "toggle") then (if hidden then units "show" else units "hide") else mode

-- `o.options.mode || 'show'` and `o.options.color || "#ffff99"`.
unfoldable pub option_or : Str → Option Str → Str
option_or default none = default
option_or default (some []) = default
option_or default (some (c ∷ s)) = c ∷ s

-- The properties that are animated.
unfoldable pub animation_to : Str → Style
animation_to mode =
    (units "backgroundColor", units "#f2f2eb")
    ∷ (if same mode (units "hide") then (units "opacity", units "0") ∷ [] else [])

-- `el.css({backgroundImage: 'none', backgroundColor: color})`.
unfoldable pub shift : Str → Style → Style
shift color style =
    set_property (units "backgroundColor") color
      (set_property (units "backgroundImage") (units "none") style)

-- `el.show()`.
unfoldable pub show_element : Element → Element
show_element el =
    let (display, noted) = el.shows (property (units "display") el.style) el.noted in
    record el {
      hidden = false;
      style = set_property (units "display") display el.style;
      noted = noted;
    }

-- `if(hides) el.hide()`.
unfoldable pub hide_if : Bool → Element → Element
hide_if hides el = record el {
  hidden = el.hidden || hides;
  style = if hides then set_property (units "display") (units "none") el.style else el.style;
  noted = if hides then el.notes (property (units "display") el.style) el.noted else el.noted;
}

-- The function that the effect puts in the queue, up to the start of its animation.
unfoldable pub start_flash : Flash → Element → Element
start_flash o el =
    let mode = set_mode el.hidden (option_or (units "show") o.mode) in
    let color = option_or (units "#ffff99") o.color in
    let shown = show_element (save props el) in
    record shown {
      style = shift color shown.style;
      running = some (record { mode = mode; target = animation_to mode; callback = o.callback });
    }

-- The end of an animation: its target is reached.
unfoldable pub reach : Style → Style → Style
reach [] style = style
reach ((k, v) ∷ target) style = reach target (set_property k v style)

unfoldable pub called_back : Option ℕ → List ℕ
called_back none = []
called_back (some c) = c ∷ []

-- `complete`, up to `dequeue`.
unfoldable pub complete : Animation → Element → Element
complete a el =
    let reached = record el { style = reach a.target el.style } in
    let restored = restore props (hide_if (same a.mode (units "hide")) reached) in
    record restored { running = none; called = el.called ++ called_back a.callback }

-- The next flash in the queue starts.
unfoldable pub next_flash : List Flash → Element → Element
next_flash [] el = el
next_flash (o ∷ rest) el = start_flash o (record el { queue = rest })

unfoldable pub dequeue : Element → Element
dequeue el = next_flash el.queue el

-- `this.queue(…)`: a queue that is idle starts its function.
unfoldable pub enqueue : Option Animation → Flash → Element → Element
enqueue none o el = start_flash o el
enqueue (some _) o el = record el { queue = el.queue ++ o ∷ [] }

-- The end of the running animation, if there is one.
unfoldable pub end_animation : Option Animation → Element → Element
end_animation none el = el
end_animation (some a) el = dequeue (complete a el)

-- What happens to an element: a flash is asked for, or its animation ends.
pub data Event : Type 0 where
  flashed : Flash → Event
  ended : Event

unfoldable pub happen : Event → Element → Element
happen (flashed o) el = enqueue el.running o el
happen ended el = end_animation el.running el

unfoldable pub happen_all : List Event → Element → Element
happen_all [] el = el
happen_all (e ∷ es) el = happen_all es (happen e el)
