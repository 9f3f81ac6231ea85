-- ===== src/Toc/Anchor.antt =====
-- toc.js: `generateId`.
pub mod Clashes
use sbt_example.Common.{
  ℕ, ◌≡◌, refl, Str, Bool, false, ◌||◌, [], ◌∷◌, map, arith, ◌==◌, if◌then◌else◌, All, length,
  length-map,
}

-- The class `[ <#\/\\?&.,():;]`.
unfoldable pub is_unwanted : ℕ → Bool
is_unwanted c =
    c == b' '
    || c == b'<'
    || c == b'#'
    || c == b'/'
    || c == b'\\'
    || c == b'?'
    || c == b'&'
    || c == b'.'
    || c == b','
    || c == b'('
    || c == b')'
    || c == b':'
    || c == b';'

unfoldable pub generate_id : Str → Str
unfolding is_unwanted
generate_id = map (λ c. if is_unwanted c then b'_' else c)

-- An id holds none of the unwanted characters.
pub generate_id-wanted : (text : Str) → All (λ c. is_unwanted c ≡ false) (generate_id text)
unfolding generate_id
generate_id-wanted [] = tt
generate_id-wanted (c ∷ text) = (ground arith, generate_id-wanted text)

-- A text without unwanted characters is its own id.
pub generate_id_of_wanted :
    (text : Str) → All (λ c. is_unwanted c ≡ false) text → generate_id text ≡ text
unfolding generate_id
generate_id_of_wanted [] h = refl
generate_id_of_wanted (c ∷ text) h = ground (arith, generate_id_of_wanted text h.1)

pub length-generate_id : (text : Str) → length (generate_id text) ≡ length text
unfolding generate_id
length-generate_id text = length-map _ text
