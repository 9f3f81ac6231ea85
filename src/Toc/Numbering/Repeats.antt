-- ===== src/Toc/Numbering/Repeats.antt =====
-- The number of a heading behind one whose level was skipped (toc.js).
use sbt_example.Common.{
  ℕ, zero, suc, ◌+◌, ◌-◌, ◌≤◌, ◌<◌, ◌≡◌, ap, sym, ◌∙◌, Str, some, [], ◌∷◌, ◌++◌, get_elem?, arith,
}
use sbt_example.Toc.Numbering.{
  Counters, update_from, update_numeration, shown_from, dotted, add_numeration,
}
use sbt_example.Toc.Numbering.Legal.{shown_from-behind}

update_above :
    (i l n : ℕ) (cs : Counters) → i < l → update_from i l (n ∷ cs) ≡ n ∷ update_from (suc i) l cs
unfolding update_from
update_above i l n cs h = ground arith

update_at :
    (i n : ℕ) (cs : Counters) → update_from i i (n ∷ cs) ≡ (n + 1) ∷ update_from (suc i) i cs
unfolding update_from
update_at i n cs = ground arith

shown_zero : (i l : ℕ) (cs : Counters) → shown_from i l (0 ∷ cs) ≡ shown_from (suc i) l cs
unfolding shown_from
shown_zero i l cs = ground arith

shown_more :
    (i l n : ℕ) (cs : Counters)
    → i ≤ l
    → shown_from i l ((n + 1) ∷ cs) ≡ (n + 1) ∷ shown_from (suc i) l cs
unfolding shown_from
shown_more i l n cs h = ground arith

shown_one : (i : ℕ) (cs : Counters) → shown_from i i (1 ∷ cs) ≡ 1 ∷ []
shown_one i cs =
    shown_more i i 0 cs (omega arith)
    ∙ ap (λ l. 1 ∷ l) (shown_from-behind (suc i) i cs (omega arith))

-- A level without a heading behind another one that has none either.
shown_again_here :
    (i : ℕ) (cs : Counters)
    → shown_from i (suc i) (update_from i (suc i) (0 ∷ 0 ∷ cs))
      ≡ shown_from i i (update_from i i (update_from i (suc i) (0 ∷ 0 ∷ cs)))
shown_again_here i cs =
    let after : update_from i (suc i) (0 ∷ 0 ∷ cs) ≡ 0 ∷ 1 ∷ update_from (suc (suc i)) (suc i) cs =
      update_above i (suc i) 0 (0 ∷ cs) (omega arith) ∙ ap (λ l. 0 ∷ l) (update_at (suc i) 0 cs) in
    let rest = update_from (suc (suc i)) (suc i) cs in
    rw after (
      shown_zero i (suc i) (1 ∷ rest)
      ∙ (shown_one (suc i) rest
          ∙ sym (
              ap (shown_from i i) (update_at i 0 (1 ∷ rest))
              ∙ shown_one i (update_from (suc i) i (1 ∷ rest)))))

shown_both :
    (i l m n : ℕ) (cs ds : Counters)
    → i ≤ l
    → i ≤ m
    → shown_from (suc i) l cs ≡ shown_from (suc i) m ds
    → shown_from i l (n ∷ cs) ≡ shown_from i m (n ∷ ds)
unfolding shown_from
shown_both i l m n cs ds h k e = ground arith

shown_again :
    (k i l : ℕ) (cs : Counters)
    → l ≡ k + i
    → get_elem? cs k ≡ some 0
    → get_elem? cs (suc k) ≡ some 0
    → shown_from i (suc l) (update_from i (suc l) cs)
      ≡ shown_from i l (update_from i l (update_from i (suc l) cs))
shown_again k i l [] e h h' = absurd (ground arith)
shown_again zero i l (n ∷ []) e h h' = absurd (ground arith)
shown_again zero i l (n ∷ m ∷ cs) e h h' =
    let n_zero : n ≡ 0 = ground arith in
    let m_zero : m ≡ 0 = ground arith in
    let here : l ≡ i = omega arith in rw (here, n_zero, m_zero) (shown_again_here i cs)
shown_again (suc k) i l (n ∷ cs) e h h' =
    let ih = shown_again k (suc i) l cs (omega arith) h h' in
    rw
      (
        update_above i (suc l) n cs (omega arith),
        update_above i l n (update_from (suc i) (suc l) cs) (omega arith),
      )
      (shown_both i (suc l) l n _ _ (omega arith) (omega arith) ih)

-- Where neither a level nor the next lower one has a heading since the last one of a higher rank, a
-- heading of the lower level and then one of the level itself get the same number.
pub add_numeration_again :
    (headers : Counters) (header : ℕ) (text : Str)
    → 0 < header
    → get_elem? headers (header - 1) ≡ some 0
    → get_elem? headers header ≡ some 0
    → let lower = update_numeration headers (suc header) in
      add_numeration (update_numeration lower header) header text
      ≡ add_numeration lower (suc header) text
unfolding update_numeration add_numeration
add_numeration_again headers zero text p h h' = absurd (omega arith)
add_numeration_again headers (suc k) text p h h' =
    let e : suc k - 1 ≡ k = omega arith in
    ap (λ nums. dotted nums ++ (b' ' ∷ text))
      (sym (shown_again k 1 (suc k) headers (omega arith) (rw e at h) h'))
