-- ===== src/Effects/Names.antt =====
-- effects.core.js: `colors`, the colours that have names.
use sbt_example.Common.{ℕ, Str, units, List, [], ◌∷◌}

-- The red, green and blue of a colour.
pub record Shade : Type 0 where
  pub red : ℕ
  pub green : ℕ
  pub blue : ℕ

abbrev shade : ℕ → ℕ → ℕ → Shade
shade r g b = record { red = r; green = g; blue = b }

abbrev pub named_colors : List (Str × Shade)
named_colors =
    (units "aqua", shade 0 255 255)
    ∷ (units "azure", shade 240 255 255)
    ∷ (units "beige", shade 245 245 220)
    ∷ (units "black", shade 0 0 0)
    ∷ (units "blue", shade 0 0 255)
    ∷ (units "brown", shade 165 42 42)
    ∷ (units "cyan", shade 0 255 255)
    ∷ (units "darkblue", shade 0 0 139)
    ∷ (units "darkcyan", shade 0 139 139)
    ∷ (units "darkgrey", shade 169 169 169)
    ∷ (units "darkgreen", shade 0 100 0)
    ∷ (units "darkkhaki", shade 189 183 107)
    ∷ (units "darkmagenta", shade 139 0 139)
    ∷ (units "darkolivegreen", shade 85 107 47)
    ∷ (units "darkorange", shade 255 140 0)
    ∷ (units "darkorchid", shade 153 50 204)
    ∷ (units "darkred", shade 139 0 0)
    ∷ (units "darksalmon", shade 233 150 122)
    ∷ (units "darkviolet", shade 148 0 211)
    ∷ (units "fuchsia", shade 255 0 255)
    ∷ (units "gold", shade 255 215 0)
    ∷ (units "green", shade 0 128 0)
    ∷ (units "indigo", shade 75 0 130)
    ∷ (units "khaki", shade 240 230 140)
    ∷ (units "lightblue", shade 173 216 230)
    ∷ (units "lightcyan", shade 224 255 255)
    ∷ (units "lightgreen", shade 144 238 144)
    ∷ (units "lightgrey", shade 211 211 211)
    ∷ (units "lightpink", shade 255 182 193)
    ∷ (units "lightyellow", shade 255 255 224)
    ∷ (units "lime", shade 0 255 0)
    ∷ (units "magenta", shade 255 0 255)
    ∷ (units "maroon", shade 128 0 0)
    ∷ (units "navy", shade 0 0 128)
    ∷ (units "olive", shade 128 128 0)
    ∷ (units "orange", shade 255 165 0)
    ∷ (units "pink", shade 255 192 203)
    ∷ (units "purple", shade 128 0 128)
    ∷ (units "violet", shade 128 0 128)
    ∷ (units "red", shade 255 0 0)
    ∷ (units "silver", shade 192 192 192)
    ∷ (units "white", shade 255 255 255)
    ∷ (units "yellow", shade 255 255 0)
    ∷ (units "transparent", shade 255 255 255)
    ∷ []
