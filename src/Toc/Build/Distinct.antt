-- ===== src/Toc/Build/Distinct.antt =====
-- The numbers of the headings after a run of the plugin (toc.js) on a page that skips no level.
use mathlib.Core.Path.{ap₂, subst}
use sbt_example.Common.{
  ℕ, zero, suc, ◌+◌, ◌-◌, ◌≤◌, ◌<◌, ◌≡◌, ◌≢◌, refl, ap, sym, ◌∙◌, Str, Bool, true, List, [], ◌∷◌,
  ◌++◌, map, arith, All, All-imp, length, length-append,
}
use sbt_example.Js.Decimal.{decimal, value_from, value_from-decimal, IsDigit, decimal-IsDigit}
use sbt_example.Toc.Numbering.{no_headings, update_numeration, add_numeration, dotted}
use sbt_example.Toc.Numbering.Counts.{numbered}
use sbt_example.Toc.Numbering.Legal.{
  next_number, length-next_number, Precedes, Precedes-trans, Precedes-ne, next_number-Precedes,
  Holds, zeros, legal_round,
}
use sbt_example.Toc.Build.{Heading, Options, selected, build_toc}
use sbt_example.Toc.Build.Entries.{IsHeading, selected-IsHeading}
use sbt_example.Toc.Build.Visited.{numbered_texts, build_toc-numbered}

-- Each level lies below the `b` levels above the top, and at most one below the level before it.
abbrev pub SkipsNoLevel : ℕ → ℕ → List ℕ → Type 0
SkipsNoLevel b last [] = Unit
SkipsNoLevel b last (l ∷ ls) = (b < l) × (l ≤ suc last) × SkipsNoLevel b l ls

-- The numbers of headings with the given levels, behind one with the number `num`.
abbrev pub legal_numbers : ℕ → List ℕ → List ℕ → List (List ℕ)
legal_numbers b num [] = []
legal_numbers b num (l ∷ ls) =
    next_number (l - suc b) num ∷ legal_numbers b (next_number (l - suc b) num) ls

abbrev pub with_numbers : List (List ℕ) → List Heading → List Str
with_numbers [] hs = []
with_numbers (n ∷ ns) [] = []
with_numbers (n ∷ ns) (h ∷ hs) = (dotted n ++ (b' ' ∷ h.text)) ∷ with_numbers ns hs

-- A number precedes the later ones, and is written differently from each of them.
abbrev pub AreOrdered : List (List ℕ) → Type 0
AreOrdered [] = Unit
AreOrdered (n ∷ ns) = All (λ m. Precedes n m × (dotted n ≢ dotted m)) ns × AreOrdered ns

-- Digits in front of a dot are determined by the text.
digits_before_dot :
    (d e s t : Str)
    → All IsDigit d
    → All IsDigit e
    → d ++ (b'.' ∷ s) ≡ e ++ (b'.' ∷ t)
    → (d ≡ e) × (s ≡ t)
digits_before_dot [] [] s t p q h = (refl, ground arith)
digits_before_dot [] (c ∷ e) s t p (q, qs) h =
    let first : b'.' ≡ c = ground arith in absurd (omega arith)
digits_before_dot (c ∷ d) [] s t (p, ps) q h =
    let first : c ≡ b'.' = ground arith in absurd (omega arith)
digits_before_dot (c ∷ d) (c' ∷ e) s t (p, ps) (q, qs) h =
    let first : c ≡ c' = ground arith in
    let (front, rest) = digits_before_dot d e s t ps qs (ground arith) in
    (ap₂ (λ x l. x ∷ l) first front, rest)

decimal_injective : (m n : ℕ) → decimal m ≡ decimal n → m ≡ n
decimal_injective m n e = sym (value_from-decimal m) ∙ ap (value_from 0) e ∙ value_from-decimal n

dotted_start : (n : ℕ) (ns : List ℕ) → dotted (n ∷ ns) ≢ []
unfolding dotted
dotted_start n ns e =
    absurd (omega (arith, ap length e, length-append (decimal n) (b'.' ∷ dotted ns)))

dotted_injective : (ms ns : List ℕ) → dotted ms ≡ dotted ns → ms ≡ ns
unfolding dotted
dotted_injective [] [] e = refl
dotted_injective [] (n ∷ ns) e = absurd (dotted_start n ns (sym e))
dotted_injective (m ∷ ms) [] e = absurd (dotted_start m ms e)
dotted_injective (m ∷ ms) (n ∷ ns) e =
    let (front, rest) =
      digits_before_dot (decimal m) (decimal n) (dotted ms) (dotted ns) (decimal-IsDigit m)
        (decimal-IsDigit n) e in
    ap₂ (λ x l. x ∷ l) (decimal_injective m n front) (dotted_injective ms ns rest)

legal_numbers-Precedes : (b : ℕ) (num ls : List ℕ) → All (Precedes num) (legal_numbers b num ls)
legal_numbers-Precedes b num [] = tt
legal_numbers-Precedes b num (l ∷ ls) =
    let next = next_number (l - suc b) num in
    let now = next_number-Precedes (l - suc b) num in
    (
      now,
      All-imp (Precedes next) (Precedes num) (λ m p. Precedes-trans num next m now p)
          (legal_numbers b next ls) (legal_numbers-Precedes b next ls),
    )

legal_numbers-AreOrdered : (b : ℕ) (num ls : List ℕ) → AreOrdered (legal_numbers b num ls)
legal_numbers-AreOrdered b num [] = tt
legal_numbers-AreOrdered b num (l ∷ ls) =
    let next = next_number (l - suc b) num in
    (
      All-imp (Precedes next) (λ m. Precedes next m × (dotted next ≢ dotted m))
          (λ m p. (p, λ e. Precedes-ne next m p (dotted_injective next m e)))
          (legal_numbers b next ls) (legal_numbers-Precedes b next ls),
      legal_numbers-AreOrdered b next ls,
    )

zeros_split : (b m : ℕ) → zeros (b + m) ≡ zeros b ++ zeros m
zeros_split zero m = let e : 0 + m ≡ m = omega arith in ap zeros e
zeros_split (suc b) m =
    let e : suc b + m ≡ suc (b + m) = omega arith in ap zeros e ∙ ap (λ l. 0 ∷ l) (zeros_split b m)

no_headings-Holds : (b : ℕ) → b ≤ 6 → Holds b [] no_headings
no_headings-Holds b h =
    let whole : 6 ≡ b + (6 - b) = omega arith in
    (6 - b, ap zeros whole ∙ zeros_split b (6 - b), omega arith, tt)

abbrev pub levels : List Heading → List ℕ
levels = map (λ h. h.level)

legal_texts :
    (opts : Options) (b : ℕ) (num past : List ℕ) (hs : List Heading)
    → All IsHeading hs
    → Holds b num (numbered past)
    → SkipsNoLevel b (b + length num) (levels hs)
    → numbered_texts opts past hs ≡ with_numbers (legal_numbers b num (levels hs)) hs
legal_texts opts b num past [] p inv skips = refl
legal_texts opts b num past (h ∷ hs) ((low, high), ps) inv (below, near, skips) =
    let k = h.level - suc b in
    let level : suc (b + k) ≡ h.level = omega arith in
    let (inv', shown) =
      legal_round b k num (numbered past) h.text inv (omega arith) (omega arith) in
    let last : h.level ≡ b + length (next_number k num) =
      omega (arith, length-next_number k num (omega arith)) in
    ap₂ (λ t l. t ∷ l)
      (subst
        (λ l.
          add_numeration (update_numeration (numbered past) l) l h.text
          ≡ dotted (next_number k num) ++ (b' ' ∷ h.text))
        level shown)
      (legal_texts opts b (next_number k num) (h.level ∷ past) hs ps
        (subst (λ l. Holds b (next_number k num) (update_numeration (numbered past) l)) level inv')
        (subst (λ l. SkipsNoLevel b l (levels hs)) last skips))

module _ (matches : Str → Heading → Bool) (opts : Options) (page : List Heading) where
  -- On a page whose headings have levels from 1 to 6, with `numerate` set, let the selected
  -- headings skip no level, where `b` levels lie above the first. Then the text of each stands
  -- behind its legal number, and these numbers grow from heading to heading and are all written
  -- differently.
  pub build_toc-AreOrdered :
      (b : ℕ)
      → b ≤ 6
      → All IsHeading page
      → opts.numerate ≡ true
      → SkipsNoLevel b b (levels (selected matches opts page))
      → let nums = legal_numbers b [] (levels (selected matches opts page)) in
        (map (λ h. h.text) (build_toc matches opts page).visited
          ≡ with_numbers nums (selected matches opts page))
        × AreOrdered nums
  build_toc-AreOrdered b small p on skips =
      let ls = levels (selected matches opts page) in
      let top : b ≡ b + 0 = omega arith in
      (
        build_toc-numbered matches opts page p on
            ∙ legal_texts opts b [] [] (selected matches opts page)
                (selected-IsHeading matches opts page p) (no_headings-Holds b small)
                (subst (λ l. SkipsNoLevel b l ls) top skips),
        legal_numbers-AreOrdered b [] ls,
      )
