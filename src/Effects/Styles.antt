-- ===== src/Effects/Styles.antt =====
-- effects.core.js: which properties of a new style `animateClass` animates.
use sbt_example.Common.{
  ◌+◌, Str, units, same, Bool, true, false, not, ◌&&◌, ◌||◌, leb, ◌==◌, List, [], ◌∷◌, map,
  if◌then◌else◌,
}
use sbt_example.Js.Text.{index_of, is_found, is_space}

-- A property of a computed style: a text, a function by its source, or null or undefined.
pub data Css : Type 0 where
  value : Str → Css
  method : Str → Css
  null : Css

-- The properties of a computed style, with distinct names.
abbrev pub CssStyle : Type 0
CssStyle = List (Str × Css)

unfoldable pub css_property : Str → CssStyle → Css
css_property n [] = null
css_property n ((m, v) ∷ style) = if same n m then v else css_property n style

-- A text is true unless it is empty.
abbrev pub is_true : Css → Bool
is_true (value []) = false
is_true (value (c ∷ s)) = true
is_true (method s) = true
is_true null = false

abbrev pub is_method : Css → Bool
is_method (method s) = true
is_method _ = false

-- `!=` between a text or a function and another value.
unfoldable pub differs : Css → Css → Bool
differs (value s) (value t) = not (same s t)
differs (value s) (method t) = not (same s t)
differs (method s) (value t) = not (same s t)
differs (method s) (method t) = not (same s t)
differs null null = false
differs _ _ = true

unfoldable pub has_text : Str → Str → Bool
has_text p s = is_found (index_of p s)

-- `n.match(/color/i)`.
unfoldable pub is_color : Str → Bool
is_color n = has_text (units "color") (map (λ c. if leb 65 c && leb c 90 then c + 32 else c) n)

-- `n.match(/left|top|bottom|right/)`.
unfoldable pub is_position : Str → Bool
is_position n =
    has_text (units "left") n
    || has_text (units "top") n
    || has_text (units "bottom") n
    || has_text (units "right") n

unfoldable pub starts_with_digit : Str → Bool
starts_with_digit [] = false
starts_with_digit (c ∷ s) = leb 48 c && leb c 57

-- `!isNaN(parseInt(s, 10))`.
unfoldable pub starts_with_number : Str → Bool
starts_with_number [] = false
starts_with_number (c ∷ s) =
    let rest = starts_with_number s in
    if is_space c
    then rest
    else if c == 43 || c == 45
    then starts_with_digit s
    else starts_with_digit (c ∷ s)

abbrev pub is_number : Css → Bool
is_number (value s) = starts_with_number s
is_number (method s) = starts_with_number s
is_number null = false

-- Whether a property of the new style is animated from the old one.
unfoldable pub is_animated : CssStyle → Str × Css → Bool
is_animated old (n, v) =
    let static = not (differs (css_property (units "position") old) (value (units "static"))) in
    not (is_method v)
    && is_true v
    && not (has_text (units "Moz") n)
    && not (has_text (units "length") n)
    && differs v (css_property n old)
    && (is_color n || (not (is_color n) && is_number v))
    && (not static || (static && not (is_position n)))

unfoldable pub offset_of : CssStyle → CssStyle → CssStyle
offset_of old [] = []
offset_of old (p ∷ new) = if is_animated old p then p ∷ offset_of old new else offset_of old new
