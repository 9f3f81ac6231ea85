-- ===== src/Effects/Wrapper.antt =====
-- effects.core.js: `createWrapper` and `removeWrapper`, which put an element of the page into a box
-- of its own for the time of an effect, and take it out again.
pub mod Laws
mod Tests
use sbt_example.Common.{
  Str, units, same, Bool, true, false, not, Option, none, some, List, [], ◌∷◌, if◌then◌else◌,
}
use sbt_example.Effects.Flash.{Style, Element, set_property}
use sbt_example.Effects.Styles.{starts_with_number}

-- An element around another: its id and its style.
pub record Holder : Type 0 where
  pub id : Option Str
  pub style : Style

-- An element with those around it, the nearest first.
pub record Held : Type 0 where
  pub element : Element
  pub parents : List Holder

-- Which element a function gives back.
pub data Given : Type 0 where
  itself : Given
  wrapper : Given

abbrev pub is_fx_wrapper : Holder → Bool
is_fx_wrapper holder = elim holder.id [ none ↦ false | some id ↦ same id (units "fxWrapper") ]

-- `el.parent().attr('id') == 'fxWrapper'`.
unfoldable pub is_wrapped : List Holder → Bool
is_wrapped [] = false
is_wrapped (holder ∷ parents) = is_fx_wrapper holder

-- `css({…})`.
unfoldable pub set_all : Style → Style → Style
set_all [] style = style
set_all ((k, v) ∷ ps) style = set_all ps (set_property k v style)

-- The style that `wrap` gives the box.
abbrev pub box : Style
box =
    (units "fontSize", units "100%")
    ∷ (units "background", units "transparent")
    ∷ (units "border", units "none")
    ∷ (units "margin", units "0")
    ∷ (units "padding", units "0")
    ∷ []

-- `if(isNaN(parseInt(s))) s = 'auto'`; no offset is written in hexadecimal digits.
unfoldable pub offset_or_auto : Str → Str
offset_or_auto s = if starts_with_number s then s else units "auto"

-- `el.wrap(…)`.
unfoldable pub wrap : Held → Held
wrap el = record el { parents = record { id = some (units "fxWrapper"); style = box } ∷ el.parents }

-- `el.css(…)`.
module _ (css : Str → Held → Str) where
  -- Where the box is placed.
  unfoldable pub box_place : Held → Style
  box_place el =
      if same (css (units "position") el) (units "static")
      then (units "position", units "relative") ∷ []
      else (units "position", css (units "position") el)
        ∷ (units "top", offset_or_auto (css (units "top") el))
        ∷ (units "left", offset_or_auto (css (units "left") el))
        ∷ (units "zIndex", css (units "z-index") el)
        ∷ []

  -- Where the element is placed in it; jQuery writes the number 0 with its unit.
  unfoldable pub inner_place : Held → Style
  inner_place el =
      if same (css (units "position") el) (units "static")
      then (units "position", units "relative") ∷ []
      else (units "position", units "relative")
        ∷ (units "top", units "0px")
        ∷ (units "left", units "0px")
        ∷ []

  -- `el.outerWidth({margin:true})`, `el.outerHeight({margin:true})`.
  module _ (outer_width outer_height : Held → Str) where
    unfoldable pub measures : Held → Style
    measures el =
        (units "width", outer_width el)
        ∷ (units "height", outer_height el)
        ∷ (units "float", css (units "float") el)
        ∷ []

    unfoldable pub create_wrapper : Held → Held × Given
    create_wrapper el =
        if is_wrapped el.parents
        then (el, itself)
        else let inside = wrap el in
          let around = set_all (measures el) (set_all (box_place inside) box) in
          (
            record {
              element = record el.element { style = set_all (inner_place inside) el.element.style };
              parents = record { id = some (units "fxWrapper"); style = around } ∷ el.parents;
            },
            wrapper,
          )

-- `el.parent().replaceWith(el)`.
unfoldable pub leave : List Holder → List Holder
leave [] = []
leave (holder ∷ parents) = parents

unfoldable pub remove_wrapper : Held → Held × Given
remove_wrapper el =
    if is_wrapped el.parents
    then (record el { parents = leave el.parents }, wrapper)
    else (el, itself)
