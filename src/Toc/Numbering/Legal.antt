-- ===== src/Toc/Numbering/Legal.antt =====
-- Legal numbering, which the counters of toc.js follow where no level is skipped.
use mathlib.Core.Path.{subst}
use sbt_example.Common.{
  ℕ, zero, suc, ◌+◌, ◌-◌, ◌≤◌, ◌<◌, ◌≡◌, ◌≢◌, refl, ap, sym, ◌∙◌, ◌⊎◌, inl, inr, Str, List, [], ◌∷◌,
  ◌++◌, arith, length, length-append, All,
}
use sbt_example.Toc.Numbering.{
  Counters, update_from, update_numeration, shown_from, dotted, add_numeration,
}

-- The number of a heading `k` levels below the top, behind a heading with the number `num`: the
-- numbers above it stay, its own grows by one or starts at one, and those below it go.
unfoldable pub next_number : ℕ → List ℕ → List ℕ
next_number k [] = 1 ∷ []
next_number zero (n ∷ num) = (n + 1) ∷ []
next_number (suc k) (n ∷ num) = n ∷ next_number k num

pub length-next_number :
    (k : ℕ) (num : List ℕ) → k ≤ length num → length (next_number k num) ≡ suc k
unfolding next_number
length-next_number zero [] h = refl
length-next_number (suc k) [] h = absurd (omega arith)
length-next_number zero (n ∷ num) h = refl
length-next_number (suc k) (n ∷ num) h = ap suc (length-next_number k num (omega arith))

-- Numbers compare by their first difference, and a number precedes those below it.
abbrev pub Precedes : List ℕ → List ℕ → Type 0
Precedes [] [] = ⊥
Precedes [] (m ∷ ms) = Unit
Precedes (n ∷ ns) [] = ⊥
Precedes (n ∷ ns) (m ∷ ms) = (n < m) ⊎ ((n ≡ m) × Precedes ns ms)

pub Precedes-trans : (a b c : List ℕ) → Precedes a b → Precedes b c → Precedes a c
Precedes-trans [] [] c p q = absurd p
Precedes-trans [] (m ∷ b) [] p q = absurd q
Precedes-trans [] (m ∷ b) (l ∷ c) p q = tt
Precedes-trans (n ∷ a) [] c p q = absurd p
Precedes-trans (n ∷ a) (m ∷ b) [] p q = absurd q
Precedes-trans (n ∷ a) (m ∷ b) (l ∷ c) (inl p) (inl q) = inl (omega arith)
Precedes-trans (n ∷ a) (m ∷ b) (l ∷ c) (inl p) (inr (e, q)) = inl (omega arith)
Precedes-trans (n ∷ a) (m ∷ b) (l ∷ c) (inr (e, p)) (inl q) = inl (omega arith)
Precedes-trans (n ∷ a) (m ∷ b) (l ∷ c) (inr (e, p)) (inr (e', q)) =
    inr (e ∙ e', Precedes-trans a b c p q)

pub Precedes-ne : (a b : List ℕ) → Precedes a b → a ≢ b
Precedes-ne [] [] p e = absurd p
Precedes-ne [] (m ∷ b) p e = cc
Precedes-ne (n ∷ a) [] p e = absurd p
Precedes-ne (n ∷ a) (m ∷ b) (inl p) e = let e' : n ≡ m = ground arith in omega arith
Precedes-ne (n ∷ a) (m ∷ b) (inr (_, p)) e = Precedes-ne a b p (ground arith)

pub next_number-Precedes : (k : ℕ) (num : List ℕ) → Precedes num (next_number k num)
unfolding next_number
next_number-Precedes k [] = tt
next_number-Precedes zero (n ∷ num) = inl (omega arith)
next_number-Precedes (suc k) (n ∷ num) = inr (refl, next_number-Precedes k num)

abbrev pub zeros : ℕ → List ℕ
zeros zero = []
zeros (suc n) = 0 ∷ zeros n

-- Behind the heading's own level the counters are cleared.
update_from-behind : (i l : ℕ) (cs : Counters) → l < i → update_from i l cs ≡ zeros (length cs)
unfolding update_from
update_from-behind i l [] h = refl
update_from-behind i l (n ∷ cs) h = ground (arith, update_from-behind (suc i) l cs (omega arith))

length-zeros : (n : ℕ) → length (zeros n) ≡ n
length-zeros zero = refl
length-zeros (suc n) = ap suc (length-zeros n)

zeros-behind : (i l m : ℕ) (cs : Counters) → l < i → length cs ≡ m → update_from i l cs ≡ zeros m
zeros-behind i l m cs h e = update_from-behind i l cs h ∙ ap zeros e

update_from-legal :
    (k : ℕ) (num : List ℕ) (m r i : ℕ)
    → k ≤ length num
    → suc k + r ≡ length num + m
    → update_from i (i + k) (num ++ zeros m) ≡ next_number k num ++ zeros r
unfolding update_from next_number
update_from-legal zero [] zero r i h e = absurd (omega arith)
update_from-legal zero [] (suc m) r i h e =
    let e' : length (zeros m) ≡ r = omega (arith, length-zeros m) in
    ground (arith, zeros-behind (suc i) (i + 0) r (zeros m) (omega arith) e')
update_from-legal (suc k) [] m r i h e = absurd (omega arith)
update_from-legal zero (n ∷ num) m r i h e =
    let e' : length (num ++ zeros m) ≡ r =
      omega (arith, length-append num (zeros m), length-zeros m) in
    ground (arith, zeros-behind (suc i) (i + 0) r (num ++ zeros m) (omega arith) e')
update_from-legal (suc k) (n ∷ num) m r i h e =
    let shift : suc i + k ≡ i + suc k = omega arith in
    let ih = update_from-legal k num m r (suc i) (omega arith) (omega arith) in
    ground (
      arith,
      subst (λ l. update_from (suc i) l (num ++ zeros m) ≡ next_number k num ++ zeros r) shift ih,
    )

pub shown_from-behind : (i l : ℕ) (cs : Counters) → l < i → shown_from i l cs ≡ []
unfolding shown_from
shown_from-behind i l [] h = refl
shown_from-behind i l (n ∷ cs) h = ground (arith, shown_from-behind (suc i) l cs (omega arith))

abbrev pub ArePositive : List ℕ → Type 0
ArePositive = All (λ n. 0 < n)

pub next_number-ArePositive :
    (k : ℕ) (num : List ℕ) → ArePositive num → ArePositive (next_number k num)
unfolding next_number
next_number-ArePositive k [] h = (omega arith, tt)
next_number-ArePositive zero (n ∷ num) h = (omega arith, tt)
next_number-ArePositive (suc k) (n ∷ num) (h, hs) = (h, next_number-ArePositive k num hs)

shown_from-legal :
    (k : ℕ) (num : List ℕ) (m i : ℕ)
    → k ≤ length num
    → ArePositive num
    → shown_from i (i + k) (next_number k num ++ zeros m) ≡ next_number k num
unfolding shown_from next_number
shown_from-legal zero [] m i h p =
    ground (arith, shown_from-behind (suc i) (i + 0) (zeros m) (omega arith))
shown_from-legal (suc k) [] m i h p = absurd (omega arith)
shown_from-legal zero (n ∷ num) m i h p =
    ground (arith, shown_from-behind (suc i) (i + 0) (zeros m) (omega arith))
shown_from-legal (suc k) (n ∷ num) m i h (p, ps) =
    let shift : suc i + k ≡ i + suc k = omega arith in
    let ih = shown_from-legal k num m (suc i) (omega arith) ps in
    ground (
      arith,
      subst (λ l. shown_from (suc i) l (next_number k num ++ zeros m) ≡ next_number k num) shift ih,
    )

-- The levels above the top are passed over.
update_from-above :
    (p i l : ℕ) (cs : Counters)
    → i + p ≤ l
    → update_from i l (zeros p ++ cs) ≡ zeros p ++ update_from (i + p) l cs
unfolding update_from
update_from-above zero i l cs h = let e : i ≡ i + 0 = omega arith in ap (λ j. update_from j l cs) e
update_from-above (suc p) i l cs h =
    let shift : suc i + p ≡ i + suc p = omega arith in
    let ih = update_from-above p (suc i) l cs (omega arith) in
    ground (
      arith,
      subst (λ j. update_from (suc i) l (zeros p ++ cs) ≡ zeros p ++ update_from j l cs) shift ih,
    )

shown_from-above :
    (p i l : ℕ) (cs : Counters) → shown_from i l (zeros p ++ cs) ≡ shown_from (i + p) l cs
unfolding shown_from
shown_from-above zero i l cs = let e : i ≡ i + 0 = omega arith in ap (λ j. shown_from j l cs) e
shown_from-above (suc p) i l cs =
    let shift : suc i + p ≡ i + suc p = omega arith in
    let ih = shown_from-above p (suc i) l cs in
    ground (arith, subst (λ j. shown_from (suc i) l (zeros p ++ cs) ≡ shown_from j l cs) shift ih)

-- The counters behind a heading with the number `num`, where `b` levels lie above the top.
abbrev pub Holds : ℕ → List ℕ → Counters → Type 0
Holds b num cs =
    (m : ℕ) × (cs ≡ zeros b ++ (num ++ zeros m)) × (b + length num + m ≡ 6) × ArePositive num

-- A heading that skips no level gets the next legal number.
pub legal_round :
    (b k : ℕ) (num : List ℕ) (cs : Counters) (text : Str)
    → Holds b num cs
    → k ≤ length num
    → b + k < 6
    → Holds b (next_number k num) (update_numeration cs (suc (b + k)))
      × (add_numeration (update_numeration cs (suc (b + k))) (suc (b + k)) text
          ≡ dotted (next_number k num) ++ (b' ' ∷ text))
unfolding update_numeration add_numeration
legal_round b k num cs text (m, e, size, p) h fits =
    let r = 5 - (b + k) in
    let level : 1 + b + k ≡ suc (b + k) = omega arith in
    let after : update_from 1 (suc (b + k)) cs ≡ zeros b ++ (next_number k num ++ zeros r) =
      ap (update_from 1 (suc (b + k))) e
      ∙ update_from-above b 1 (suc (b + k)) (num ++ zeros m) (omega arith)
      ∙ ap (λ l. zeros b ++ update_from (1 + b) l (num ++ zeros m)) (sym level)
      ∙ ap (λ l. zeros b ++ l) (update_from-legal k num m r (1 + b) h (omega arith)) in
    let shown : shown_from 1 (suc (b + k)) (zeros b ++ (next_number k num ++ zeros r))
        ≡ next_number k num =
      shown_from-above b 1 (suc (b + k)) (next_number k num ++ zeros r)
      ∙ ap (λ l. shown_from (1 + b) l (next_number k num ++ zeros r)) (sym level)
      ∙ shown_from-legal k num r (1 + b) h p in
    (
      (r, after, omega (arith, length-next_number k num h), next_number-ArePositive k num p),
      ap (λ l. dotted l ++ (b' ' ∷ text)) (ap (shown_from 1 (suc (b + k))) after ∙ shown),
    )
