-- ===== src/Toc/Numbering/Counts.antt =====
-- The counters of toc.js after a sequence of headings.
use sbt_example.Common.{
  ℕ, zero, suc, ◌+◌, ◌≤◌, ◌<◌, ◌≡◌, refl, ap, ◌∙◌, List, [], ◌∷◌, arith, ◌==◌, ltb, leb,
  if◌then◌else◌, length,
}
use sbt_example.Toc.Numbering.{Counters, no_headings, update_from, update_numeration, counter}

-- How often a level stands in a list.
abbrev pub count : ℕ → List ℕ → ℕ
count l [] = 0
count l (x ∷ xs) = if x == l then suc (count l xs) else count l xs

-- The levels before the first one above `l` in rank, that is below it as a number.
abbrev pub while_at_least : ℕ → List ℕ → List ℕ
while_at_least l [] = []
while_at_least l (x ∷ xs) = if leb l x then x ∷ while_at_least l xs else []

-- The headings in the order of the document, the last one first.
abbrev pub numbered : List ℕ → Counters
numbered [] = no_headings
numbered (x ∷ past) = update_numeration (numbered past) x

length-update_from : (i x : ℕ) (cs : Counters) → length (update_from i x cs) ≡ length cs
unfolding update_from
length-update_from i x [] = refl
length-update_from i x (n ∷ cs) = ap suc (length-update_from (suc i) x cs)

counter-update_from :
    (i x k : ℕ) (cs : Counters)
    → k < length cs
    → counter (update_from i x cs) (suc k) ≡ (
        if i + k == x
        then counter cs (suc k) + 1
        else if ltb x (i + k)
        then 0
        else counter cs (suc k))
unfolding update_from counter
counter-update_from i x k [] h = elim h [ ]
counter-update_from i x zero (n ∷ cs) h = ground arith
counter-update_from i x (suc k) (n ∷ cs) h =
    let shift : suc i + k ≡ i + suc k = omega arith in
    counter-update_from (suc i) x k cs (omega arith) ∙ rw shift

-- `updateNumeration` adds one at the heading's level, clears the levels below it and leaves those
-- above it as they are.
pub counter-update_numeration :
    (cs : Counters) (x l : ℕ)
    → 0 < l
    → l ≤ length cs
    → counter (update_numeration cs x) l
      ≡ (if l == x then counter cs l + 1 else if ltb x l then 0 else counter cs l)
unfolding update_numeration
counter-update_numeration cs x zero p h = absurd (omega arith)
counter-update_numeration cs x (suc k) p h =
    let shift : 1 + k ≡ suc k = omega arith in counter-update_from 1 x k cs h ∙ rw shift

pub length-numbered : (past : List ℕ) → length (numbered past) ≡ 6
unfolding update_numeration
length-numbered [] = refl
length-numbered (x ∷ past) = length-update_from 1 x (numbered past) ∙ length-numbered past

counter-zero : (l : ℕ) → counter no_headings l ≡ 0
unfolding counter
counter-zero zero = refl
counter-zero (suc zero) = refl
counter-zero (suc (suc zero)) = refl
counter-zero (suc (suc (suc zero))) = refl
counter-zero (suc (suc (suc (suc zero)))) = refl
counter-zero (suc (suc (suc (suc (suc zero))))) = refl
counter-zero (suc (suc (suc (suc (suc (suc zero)))))) = refl
counter-zero (suc (suc (suc (suc (suc (suc (suc l))))))) = refl

-- The counter of a level from 1 to 6 is the number of its headings since the last heading of a
-- higher rank.
pub counter-numbered :
    (past : List ℕ) (l : ℕ)
    → 0 < l
    → l ≤ 6
    → counter (numbered past) l ≡ count l (while_at_least l past)
counter-numbered [] l p h = counter-zero l
counter-numbered (x ∷ past) l p h =
    let fits : l ≤ length (numbered past) = omega (arith, length-numbered past) in
    ground
      (arith, counter-update_numeration (numbered past) x l p fits, counter-numbered past l p h)
