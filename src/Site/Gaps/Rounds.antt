-- ===== src/Site/Gaps/Rounds.antt =====
-- Rounds of toc.js that append an entry, with `checkContainer` before it or without, and the lists
-- without items that contentsFix.js finds afterwards.
use sbt_example.Common.{
  ℕ, zero, suc, ◌≡◌, refl, sym, ap, ◌∙◌, ◌<◌, Bool, true, false, ◌||◌, ◌&&◌, ◌==◌, ◌⊎◌, inl, inr,
  Bool-cases, if◌then◌else◌, ltb, arith,
}
use sbt_example.Toc.Outline.{
  Entry, Ul, empty, leaf, branch, wrapper, Last, no_list, below, last_below, append_list, descend,
  check_container, is_no_list,
}
use sbt_example.Site.{has_no_items, holds_empty}
use sbt_example.Site.Gaps.{
  deeper, tip, tip_ne, left_by, left, left-empty, holds_empty-descend, positive_inside, left-tip,
}

below_no_list : (l : Last) → l ≡ no_list → below l ≡ no_list
below_no_list l e = rw e refl

tip-last_below : (u : Ul) → 0 < tip u → last_below u ≡ no_list
unfolding tip last_below has_no_items
tip-last_below empty p = absurd (omega arith)
tip-last_below (leaf e empty) p = refl
tip-last_below (leaf e r) p = tip-last_below r p
tip-last_below (branch e s empty) p =
    below_no_list (last_below s) (tip-last_below s (positive_inside (tip s) p))
tip-last_below (branch e s r) p = tip-last_below r p
tip-last_below (wrapper s empty) p =
    below_no_list (last_below s) (tip-last_below s (positive_inside (tip s) p))
tip-last_below (wrapper s r) p = tip-last_below r p

has_no_items-append_list : (u : Ul) → has_no_items (append_list u) ≡ has_no_items u
unfolding has_no_items append_list
has_no_items-append_list empty = refl
has_no_items-append_list (leaf e empty) = refl
has_no_items-append_list (branch e s empty) = refl
has_no_items-append_list (wrapper s empty) = refl
has_no_items-append_list (leaf e r) = refl
has_no_items-append_list (branch e s r) = refl
has_no_items-append_list (wrapper s r) = refl

holds_empty-append_list : (u : Ul) → 0 < tip u → holds_empty (append_list u) ≡ true
unfolding tip holds_empty append_list has_no_items
holds_empty-append_list empty p = absurd (omega arith)
holds_empty-append_list (leaf e empty) p = refl
holds_empty-append_list (leaf e r) p = holds_empty-append_list r p
holds_empty-append_list (branch e s empty) p =
    ground (arith, holds_empty-append_list s (positive_inside (tip s) p))
holds_empty-append_list (branch e s r) p = ground (arith, holds_empty-append_list r p)
holds_empty-append_list (wrapper s empty) p =
    ground (arith, holds_empty-append_list s (positive_inside (tip s) p))
holds_empty-append_list (wrapper s r) p = ground (arith, holds_empty-append_list r p)

-- What is left after an entry went in below a new last list.
abbrev spoilt : ℕ → Ul → Bool
spoilt n u = if ltb n (tip u) then true else holds_empty u

ltb-deeper : (n d : ℕ) → 0 < d → ltb (suc n) (deeper d) ≡ ltb n d
ltb-deeper n zero p = absurd (omega arith)
ltb-deeper n (suc d) p = ground arith

spoilt_inside :
    (n : ℕ) (s : Ul)
    → 0 < tip s
    → spoilt n s
      ≡ (if ltb (suc n) (deeper (tip s)) then true else has_no_items s || (holds_empty s || false))
spoilt_inside n s p = rw (ltb-deeper n (tip s) p, tip_ne s p) (ground arith)

spoilt_behind :
    (before later full : Bool) {rest : Bool}
    → rest ≡ (if full then true else later)
    → before || rest ≡ (if full then true else before || later)
spoilt_behind before later full e = ground (arith, e)

-- A new list in the last item is filled only by an entry that goes further down.
left-append_list : (n : ℕ) (u : Ul) → 0 < tip u → left n (append_list u) ≡ spoilt n u
unfolding left left_by holds_empty append_list tip has_no_items
left-append_list zero u p = ground (arith, holds_empty-append_list u p)
left-append_list (suc n) empty p = absurd (omega arith)
left-append_list (suc n) (leaf e empty) p = ground (arith, left-empty n)
left-append_list (suc n) (leaf e r) p = left-append_list (suc n) r p
left-append_list (suc n) (branch e s empty) p =
    left-append_list n s (positive_inside (tip s) p) ∙ spoilt_inside n s (positive_inside (tip s) p)
left-append_list (suc n) (branch e s r) p = rw (has_no_items-append_list r) (
    spoilt_behind (has_no_items s) (holds_empty s || holds_empty r) (ltb (suc n) (tip r)) (
      spoilt_behind (holds_empty s) (holds_empty r) (ltb (suc n) (tip r))
        (left-append_list (suc n) r p)))
left-append_list (suc n) (wrapper s empty) p =
    left-append_list n s (positive_inside (tip s) p) ∙ spoilt_inside n s (positive_inside (tip s) p)
left-append_list (suc n) (wrapper s r) p = rw (has_no_items-append_list r) (
    spoilt_behind (has_no_items s) (holds_empty s || holds_empty r) (ltb (suc n) (tip r)) (
      spoilt_behind (holds_empty s) (holds_empty r) (ltb (suc n) (tip r))
        (left-append_list (suc n) r p)))

-- A list as it stands between two headings: it has no items, or its last item has no list.
abbrev pub IsClosed : Ul → Type 0
IsClosed u = (u ≡ empty) ⊎ (0 < tip u)

-- A round that only appends an entry.
pub holds_empty-appended :
    (n : ℕ) (e : Entry) (u : Ul) → IsClosed u → holds_empty (descend n e u) ≡ holds_empty u
unfolding holds_empty
holds_empty-appended n e u (inl none_yet) = holds_empty-descend n e u ∙ rw none_yet (left-empty n)
holds_empty-appended n e u (inr p) = holds_empty-descend n e u ∙ left-tip n u p

check_container-empty : (header : ℕ) → check_container header empty ≡ empty
unfolding check_container is_no_list last_below
check_container-empty header = ground arith

still_closed :
    (header n : ℕ) → false ≡ (if header == 0 && ltb n (tip empty) then true else holds_empty empty)
unfolding tip holds_empty
still_closed header n = ground arith

-- A round that checks the container first.
pub holds_empty-checked :
    (header n : ℕ) (e : Entry) (u : Ul)
    → IsClosed u
    → holds_empty (descend n e (check_container header u))
      ≡ (if header == 0 && ltb n (tip u) then true else holds_empty u)
unfolding check_container is_no_list last_below tip
holds_empty-checked header n e u (inl none_yet) =
    ap (λ v. holds_empty (descend n e (check_container header v))) none_yet
    ∙ ap (λ v. holds_empty (descend n e v)) (check_container-empty header)
    ∙ holds_empty-descend n e empty
    ∙ left-empty n
    ∙ still_closed header n
    ∙ ap (λ v. if header == 0 && ltb n (tip v) then true else holds_empty v) (sym none_yet)
holds_empty-checked header n e u (inr p) = elim (Bool-cases (header == 0)) [
  | inl new_rank ↦
      rw (new_rank, tip-last_below u p)
        (holds_empty-descend n e (append_list u) ∙ left-append_list n u p)
  | inr known ↦ rw known (holds_empty-appended n e u (inr p))
]
