-- ===== src/Js/Text.antt =====
-- The string methods that the scripts call: `indexOf`, `lastIndexOf`, `substr`, `substring`,
-- `split`, `join`.
pub mod Laws
use sbt_example.Common.{
  ℕ, suc, ◌-◌, Str, Bool, true, false, ◌&&◌, ◌||◌, leb, Option, none, some, List, [], ◌∷◌, ◌++◌,
  ◌==◌, if◌then◌else◌, length, take, drop,
}
use mathlib.Core.Option

abbrev pub starts_with : Str → Str → Bool
starts_with [] s = true
starts_with (p ∷ ps) [] = false
starts_with (p ∷ ps) (c ∷ s) = p == c && starts_with ps s

-- `s.indexOf(p)`; `none` stands for -1.
unfoldable pub index_of : Str → Str → Option ℕ
index_of p [] = elim p [ [] ↦ some 0 | _ ∷ _ ↦ none ]
index_of p (c ∷ s) = if starts_with p (c ∷ s) then some 0 else Option.map suc (index_of p s)

-- Whether an index was found.
unfoldable pub is_found : Option ℕ → Bool
is_found none = false
is_found (some _) = true

-- The units that `\s` matches.
unfoldable pub is_space : ℕ → Bool
is_space c =
    (leb 9 c && leb c 13)
    || c == 32
    || c == 0xA0
    || c == 0x1680
    || (leb 0x2000 c && leb c 0x200A)
    || c == 0x2028
    || c == 0x2029
    || c == 0x202F
    || c == 0x205F
    || c == 0x3000
    || c == 0xFEFF

-- `s.lastIndexOf(c)` for one unit; `none` stands for -1.
unfoldable pub last_index_of : ℕ → Str → Option ℕ
last_index_of c [] = none
last_index_of c (x ∷ s) = elim (last_index_of c s) [
  | some i ↦ some (suc i)
  | none ↦ if x == c then some 0 else none
]

-- `s.substr(-n)`: the last n units.
abbrev pub last_units : ℕ → Str → Str
last_units n s = drop (length s - n) s

-- `s.substring(a, b)` where a and b are not above the length: the smaller bound comes first.
abbrev pub substring : ℕ → ℕ → Str → Str
substring a b s = elim (Prim.Native.Nat.compare a b) [
  | Prim.Native.Nat.Ordering.gt ↦ take (a - b) (drop b s)
  | _ ↦ take (b - a) (drop a s)
]

-- Puts a unit in front of the first part.
abbrev pub onto_first : ℕ → List Str → List Str
onto_first c [] = (c ∷ []) ∷ []
onto_first c (p ∷ ps) = (c ∷ p) ∷ ps

-- `s.split(sep)` at one unit; the result has at least one part.
unfoldable pub split : ℕ → Str → List Str
split sep [] = [] ∷ []
split sep (c ∷ s) = let parts = split sep s in if c == sep then [] ∷ parts else onto_first c parts

-- `parts.join(sep)`.
unfoldable pub join : ℕ → List Str → Str
join sep [] = []
join sep (p ∷ []) = p
join sep (p ∷ q ∷ ps) = p ++ (sep ∷ join sep (q ∷ ps))
