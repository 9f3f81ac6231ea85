-- ===== src/Common/Text.antt =====
-- JavaScript strings: lists of UTF-16 code units.
use Prim.Native.Nat.{ℕ}
use Prim.Native.Char.{code}
use Prim.Native.String.{String}
use mathlib.Core.Path.{◌≡◌, refl}
use mathlib.Core.Bool.{Bool, true, false, ◌&&◌}
use mathlib.Core.Logic.{◌↔◌}
use mathlib.Core.List.{List, [], ◌∷◌}
use native.Mathlib.Omega.{arith}
use sbt_example.Common.Tests.{◌==◌}

abbrev pub Str : Type 0
Str = List ℕ

-- The units of a literal whose characters all lie below U+10000.
abbrev pub units : String → Str
units String.[] = []
units (String.◌∷◌ c s) = code c ∷ units s

-- `s === t`.
unfoldable pub same : Str → Str → Bool
same [] [] = true
same (a ∷ s) (b ∷ t) = a == b && same s t
same _ _ = false

pub same_iff : (s t : Str) → (same s t ≡ true) ↔ (s ≡ t)
unfolding same
same_iff [] [] = ground arith
same_iff (a ∷ s) (b ∷ t) = ground (arith, same_iff s t)
same_iff [] (b ∷ t) = ground arith
same_iff (a ∷ s) [] = ground arith

pub same_refl : (s : Str) → same s s ≡ true
same_refl s = (same_iff s s).1 refl
