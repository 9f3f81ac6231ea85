-- ===== src/Effects/Colors.antt =====
-- effects.core.js: the colours of an animation: `getRGB`, `getColor` and the step of a colour.
pub mod RoundTrip
pub mod Hex
mod Tests
use sbt_example.Common.{
  ℕ, ◌*◌, Str, units, same, Bool, true, false, not, ◌&&◌, ◌||◌, Option, none, some, List, [], ◌∷◌,
  ◌++◌, map, leb, if◌then◌else◌, Outcome, ok, throw, type_error,
}
use sbt_example.Js.Decimal.{decimal, value_from}
use sbt_example.Js.Text.{index_of}
use sbt_example.Doctools.Query.{inherits}
use sbt_example.Effects.Names.{Shade, named_colors}
use sbt_example.Effects.Pattern.{short_number, percentage, rgb_of, hex_short, hex_long, exec, after}

-- Whole numbers, positive or negative.
pub data ℤ : Type 0 where
  pos : ℕ → ℤ
  negsuc : ℕ → ℤ

-- What `getRGB` takes: an array of three numbers, a text, or `undefined`. `R` is the language's
-- numbers.
pub data Source {ℓ} (R : Type ℓ) : Type ℓ where
  array : R → R → R → Source R
  text : Str → Source R
  missing : Source R

-- What `getRGB` gives: an array of three numbers, `undefined`, or a property that `colors`
-- inherits from `Object.prototype`.
pub data Color {ℓ} (R : Type ℓ) : Type ℓ where
  rgb : R → R → R → Color R
  undefined : Color R
  inherited : Str → Color R

-- `colors[name]`, among the colours from `cs` on.
unfoldable pub lookup_color : Str → List (Str × Shade) → Option Shade
lookup_color name [] = none
lookup_color name ((k, c) ∷ cs) = if same name k then some c else lookup_color name cs

-- The number that `int` makes of a natural number, the product with 2.55 of the one that
-- `parseFloat` reads, jQuery's `trim`, and the lower case of a unit.
module _ {ℓ} {R : Type ℓ} (int : ℕ → R) (percent : Str → R) (trim : Str → Str) (fold : ℕ → ℕ) where
  unfoldable pub of_shade : Shade → Color R
  of_shade c = rgb (int c.red) (int c.green) (int c.blue)

  unfoldable pub color_named : Str → Color R
  color_named name = elim (lookup_color name named_colors) [
    | some c ↦ of_shade c
    | none ↦ if inherits name then inherited name else undefined
  ]

  -- `colors['transparent']`.
  abbrev pub transparent : Color R
  transparent = rgb (int 255) (int 255) (int 255)

  -- The patterns behind the first two, and then the names.
  unfoldable pub other_text : Str → Color R
  other_text s = elim (exec hex_long s) [
    | some (r, g, b) ↦ rgb (int r) (int g) (int b)
    | none ↦ elim (exec hex_short s) [
      | some (r, g, b) ↦ rgb (int r) (int g) (int b)
      | none ↦ elim (exec (after (units "rgba(0, 0, 0, 0)")) s) [
        | some _ ↦ transparent
        | none ↦ color_named (map fold (trim s))
      ]
    ]
  ]

  -- A text, by the patterns in their order.
  unfoldable pub text_rgb : Str → Color R
  text_rgb s = elim (exec (rgb_of short_number) s) [
    | some (r, g, b) ↦ rgb (int (value_from 0 r)) (int (value_from 0 g)) (int (value_from 0 b))
    | none ↦ elim (exec (rgb_of percentage) s) [
      | some (r, g, b) ↦ rgb (percent r) (percent g) (percent b)
      | none ↦ other_text s
    ]
  ]

  -- Without a text no pattern fits, and the name is the empty text, which `trim` makes of
  -- `undefined`.
  unfoldable pub get_rgb : Source R → Color R
  get_rgb (array r g b) = rgb r g b
  get_rgb (text s) = text_rgb s
  get_rgb missing = color_named (map fold [])

  -- `getColor`: the colours that the style gives the element itself and, for the background, each
  -- of its ancestors up to the body or the document; the last is taken whatever it is.
  unfoldable pub first_color : Str → List Str → Str
  first_color own [] = own
  first_color own (s ∷ ss) =
      if same own [] || same own (units "transparent") then first_color s ss else own

  unfoldable pub get_color : Str → List Str → Color R
  get_color own above = get_rgb (text (first_color own above))

  -- `fx.start` and `fx.end`, which the first step sets.
  unfoldable pub start_fx : Str → List Str → Source R → Color R × Color R
  start_fx own above end = (get_color own above, get_rgb end)

-- `Math.max(Math.min(x, 255), 0)`.
unfoldable pub clamp : ℤ → ℕ
clamp (pos n) = if leb n 255 then n else 255
clamp (negsuc n) = 0

-- The text that a step sets.
unfoldable pub rgb_text : ℕ → ℕ → ℕ → Str
rgb_text r g b =
    units "rgb("
    ++ (decimal r ++ (units "," ++ (decimal g ++ (units "," ++ (decimal b ++ units ")")))))

-- What the parts of a property of `Object.prototype` come to.
abbrev pub no_number : Str
no_number = units "rgb(NaN,NaN,NaN)"

-- The text of a step; `shade` is `parseInt((fx.pos * (end - start)) + start)` at its position. An
-- end that is undefined has no parts.
unfoldable pub step_text {ℓ} : {R : Type ℓ} → (R → R → ℤ) → Color R → Color R → Outcome Str
step_text shade (rgb r g b) (rgb r' g' b') =
    ok (rgb_text (clamp (shade r r')) (clamp (shade g g')) (clamp (shade b b')))
step_text shade undefined to = throw type_error
step_text shade (rgb _ _ _) undefined = throw type_error
step_text shade (inherited _) undefined = throw type_error
step_text shade (rgb _ _ _) (inherited _) = ok no_number
step_text shade (inherited _) (rgb _ _ _) = ok no_number
step_text shade (inherited _) (inherited _) = ok no_number
