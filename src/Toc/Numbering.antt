-- ===== src/Toc/Numbering.antt =====
-- toc.js: `updateNumeration` and `addNumeration`. The counters `h1` to `h6` are a list; the key of
-- a position is its level, and keys compare as their levels do.
pub mod Counts
pub mod Legal
pub mod Repeats
use sbt_example.Common.{
  ℕ, zero, suc, ◌+◌, Str, Bool, ◌&&◌, List, [], ◌∷◌, ◌++◌, ◌==◌, ltb, leb, if◌then◌else◌,
}
use sbt_example.Js.Decimal.{decimal}

abbrev pub Counters : Type 0
Counters = List ℕ

abbrev pub no_headings : Counters
no_headings = 0 ∷ 0 ∷ 0 ∷ 0 ∷ 0 ∷ 0 ∷ []

-- The loop of `updateNumeration` from the key `i` on.
unfoldable pub update_from : ℕ → ℕ → Counters → Counters
update_from i header [] = []
update_from i header (n ∷ headers) =
    (if i == header then n + 1 else if ltb header i then 0 else n)
    ∷ update_from (suc i) header headers

unfoldable pub update_numeration : Counters → ℕ → Counters
update_numeration headers header = update_from 1 header headers

-- The numbers that `addNumeration` writes out, from the key `i` on.
unfoldable pub shown_from : ℕ → ℕ → Counters → List ℕ
shown_from i header [] = []
shown_from i header (n ∷ headers) =
    if leb i header && ltb 0 n
    then n ∷ shown_from (suc i) header headers
    else shown_from (suc i) header headers

-- Each number with a dot behind it.
unfoldable pub dotted : List ℕ → Str
dotted [] = []
dotted (n ∷ ns) = decimal n ++ (b'.' ∷ dotted ns)

unfoldable pub add_numeration : Counters → ℕ → Str → Str
add_numeration headers header text = dotted (shown_from 1 header headers) ++ (b' ' ∷ text)

-- `headers['h' + i]`.
unfoldable pub counter : Counters → ℕ → ℕ
counter [] i = 0
counter (n ∷ headers) zero = 0
counter (n ∷ headers) (suc zero) = n
counter (n ∷ headers) (suc (suc i)) = counter headers (suc i)
