-- ===== src/Site/Scroll/Follow.antt =====
-- From an entry of the table of contents (toc.js) to its heading (scrollTo.js).
use sbt_example.Common.{
  ℕ, suc, ◌+◌, ◌-◌, ltb, units, false, ◌≡◌, ◌≢◌, Str, same, Bool, true, ◌&&◌, ◌||◌, Option, none,
  some, List, [], ◌∷◌, ◌++◌, map, All, leb, ◌==◌, if◌then◌else◌,
}
use mathlib.Core.Option
use sbt_example.Effects.Colors.{ℤ, pos, negsuc}
use sbt_example.Effects.Flash.{Animation, Element, property}
use sbt_example.Site.Scroll.{flash}

-- Letters, digits, `-` and `_`.
abbrev pub is_word : ℕ → Bool
is_word c =
    (leb b'a' c && leb c b'z')
    || (leb b'A' c && leb c b'Z')
    || (leb b'0' c && leb c b'9')
    || c == b'-'
    || c == b'_'

-- The first element with an id.
unfoldable pub first_with : Str → List (Option Str) → Option ℕ
first_with id [] = none
first_with id (none ∷ ids) = Option.map suc (first_with id ids)
first_with id (some i ∷ ids) = if same id i then some 0 else Option.map suc (first_with id ids)

-- jQuery finds the first element with the id, if the id is a word.
abbrev pub FindsIds : (Str → List (Option Str) → Option ℕ) → Type 0
FindsIds find =
    (id : Str) (ids : List (Option Str))
    → id ≢ []
    → All (λ c. is_word c ≡ true) id
    → find (b'#' ∷ id) ids ≡ first_with id ids

-- Five more than a number.
pub five_more : ℤ → ℤ
five_more (pos n) = pos (n + 5)
five_more (negsuc n) = if ltb n 5 then pos (4 - n) else negsuc (n - 5)

-- An element before a click flashes it, and after: an idle one is shown in the colour of the links,
-- and the flash of a busy one waits behind all others.
pub Flashes : Option Animation → Element → Element → Type 0
Flashes none el after =
    (property (units "backgroundColor") after.style ≡ units "#FFCC85")
    × (property (units "backgroundImage") after.style ≡ units "none")
    × (after.hidden ≡ false)
    × (after.running ≢ none)
Flashes (some a) el after =
    (after.queue ≡ el.queue ++ flash ∷ []) × (after.running ≡ some a) × (after.style ≡ el.style)
