-- ===== src/Site/Gaps.antt =====
-- Lists without items inside the list that toc.js builds, as contentsFix.js looks for them.
pub mod Rounds
use sbt_example.Common.{
  ℕ, zero, suc, ◌≡◌, ◌≢◌, refl, sym, ap, ◌∙◌, ◌<◌, Bool, true, false, ◌||◌, ◌&&◌, ◌==◌, ◌⊎◌, inl,
  inr, Bool-cases, if◌then◌else◌, ltb, arith,
}
use sbt_example.Toc.Outline.{
  Entry, Ul, empty, leaf, branch, wrapper, Last, no_list, below, last_below, append_list,
  append_leaf, ensure_list, in_last, descend, check_container, is_no_list,
}
use sbt_example.Toc.Outline.Depths.{
  in_last-leaf, in_last-branch, in_last-wrapper, ensure_list-ne-empty,
}
use sbt_example.Site.{has_no_items, holds_empty}

has_no_items_ne : (u : Ul) → u ≢ empty → has_no_items u ≡ false
unfolding has_no_items
has_no_items_ne empty n = absurd (n refl)
has_no_items_ne (leaf _ _) n = refl
has_no_items_ne (branch _ _ _) n = refl
has_no_items_ne (wrapper _ _) n = refl

abbrev pub deeper : ℕ → ℕ
deeper zero = 0
deeper (suc d) = suc (suc d)

-- How many lists stand around the last item, or 0 where that has a list itself or is missing.
unfoldable pub tip : Ul → ℕ
tip empty = 0
tip (leaf e r) = if has_no_items r then 1 else tip r
tip (branch e s r) = if has_no_items r then deeper (tip s) else tip r
tip (wrapper s r) = if has_no_items r then deeper (tip s) else tip r

pub tip_ne : (u : Ul) → 0 < tip u → has_no_items u ≡ false
unfolding tip has_no_items
tip_ne empty p = absurd (omega arith)
tip_ne (leaf _ _) p = refl
tip_ne (branch _ _ _) p = refl
tip_ne (wrapper _ _) p = refl

tip-append_leaf : (e : Entry) (u : Ul) → tip (append_leaf e u) ≡ 1
unfolding tip append_leaf has_no_items
tip-append_leaf e empty = refl
tip-append_leaf e (leaf x r) =
    rw (tip_ne (append_leaf e r) (omega (arith, tip-append_leaf e r))) (tip-append_leaf e r)
tip-append_leaf e (branch x s r) =
    rw (tip_ne (append_leaf e r) (omega (arith, tip-append_leaf e r))) (tip-append_leaf e r)
tip-append_leaf e (wrapper s r) =
    rw (tip_ne (append_leaf e r) (omega (arith, tip-append_leaf e r))) (tip-append_leaf e r)

holds_empty-append_leaf : (e : Entry) (u : Ul) → holds_empty (append_leaf e u) ≡ holds_empty u
unfolding holds_empty append_leaf
holds_empty-append_leaf e empty = refl
holds_empty-append_leaf e (leaf x r) = holds_empty-append_leaf e r
holds_empty-append_leaf e (branch x s r) =
    ap (λ b. has_no_items s || (holds_empty s || b)) (holds_empty-append_leaf e r)
holds_empty-append_leaf e (wrapper s r) =
    ap (λ b. has_no_items s || (holds_empty s || b)) (holds_empty-append_leaf e r)

-- Whether a list has no items after a change in the last one, by what that leaves in its place.
unfoldable pub left_by : (Ul → Bool) → Ul → Bool
left_by g empty = false
left_by g (leaf e r) = left_by g r
left_by g (branch e s r) =
    if has_no_items r then g s else has_no_items s || (holds_empty s || left_by g r)
left_by g (wrapper s r) =
    if has_no_items r then g s else has_no_items s || (holds_empty s || left_by g r)

module _ (f : Ul → Ul) (d : ℕ) (ends : (s : Ul) → tip (f s) ≡ suc d) where
  filled : (s : Ul) → has_no_items (f s) ≡ false
  filled s = tip_ne (f s) (omega (arith, ends s))

  tip-in_last : (u : Ul) → tip (in_last f (ensure_list u)) ≡ suc (suc d)
  unfolding tip in_last ensure_list has_no_items
  tip-in_last empty = ap deeper (ends empty)
  tip-in_last (leaf e empty) = ap deeper (ends empty)
  tip-in_last (branch e s empty) = ap deeper (ends s)
  tip-in_last (wrapper s empty) = ap deeper (ends s)
  tip-in_last (leaf e r) =
      let ih = tip-in_last r in
      ap tip (in_last-leaf f e (ensure_list r) (ensure_list-ne-empty r))
      ∙ rw (tip_ne (in_last f (ensure_list r)) (omega (arith, ih))) ih
  tip-in_last (branch e s r) =
      let ih = tip-in_last r in
      ap tip (in_last-branch f e s (ensure_list r) (ensure_list-ne-empty r))
      ∙ rw (tip_ne (in_last f (ensure_list r)) (omega (arith, ih))) ih
  tip-in_last (wrapper s r) =
      let ih = tip-in_last r in
      ap tip (in_last-wrapper f s (ensure_list r) (ensure_list-ne-empty r))
      ∙ rw (tip_ne (in_last f (ensure_list r)) (omega (arith, ih))) ih

  module _ (g : Ul → Bool) (leaves : (s : Ul) → holds_empty (f s) ≡ g s)
      (none_before : g empty ≡ false) where
    holds_empty-in_last : (u : Ul) → holds_empty (in_last f (ensure_list u)) ≡ left_by g u
    unfolding holds_empty in_last ensure_list has_no_items left_by
    holds_empty-in_last empty = ground (arith, filled empty, leaves empty)
    holds_empty-in_last (leaf e empty) = ground (arith, filled empty, leaves empty)
    holds_empty-in_last (branch e s empty) = ground (arith, filled s, leaves s)
    holds_empty-in_last (wrapper s empty) = ground (arith, filled s, leaves s)
    holds_empty-in_last (leaf e r) =
        ap holds_empty (in_last-leaf f e (ensure_list r) (ensure_list-ne-empty r))
        ∙ holds_empty-in_last r
    holds_empty-in_last (branch e s r) =
        ap holds_empty (in_last-branch f e s (ensure_list r) (ensure_list-ne-empty r))
        ∙ ap (λ b. has_no_items s || (holds_empty s || b)) (holds_empty-in_last r)
    holds_empty-in_last (wrapper s r) =
        ap holds_empty (in_last-wrapper f s (ensure_list r) (ensure_list-ne-empty r))
        ∙ ap (λ b. has_no_items s || (holds_empty s || b)) (holds_empty-in_last r)

-- Whether a list has no items after an entry went in below `n` further lists.
unfoldable pub left : ℕ → Ul → Bool
left zero u = holds_empty u
left (suc n) u = left_by (left n) u

pub left-empty : (n : ℕ) → left n empty ≡ false
unfolding left left_by holds_empty
left-empty zero = refl
left-empty (suc n) = refl

pub tip-descend : (n : ℕ) (e : Entry) (u : Ul) → tip (descend n e u) ≡ suc n
unfolding descend
tip-descend zero e u = tip-append_leaf e u
tip-descend (suc n) e u = tip-in_last (descend n e) n (tip-descend n e) u

pub holds_empty-descend : (n : ℕ) (e : Entry) (u : Ul) → holds_empty (descend n e u) ≡ left n u
unfolding descend left
holds_empty-descend zero e u = holds_empty-append_leaf e u
holds_empty-descend (suc n) e u =
    holds_empty-in_last (descend n e) n (tip-descend n e) (left n) (holds_empty-descend n e)
      (left-empty n) u

pub positive_inside : (d : ℕ) → 0 < deeper d → 0 < d
positive_inside zero p = p
positive_inside (suc d) p = omega arith

-- Below an item without a list an entry makes its own lists.
pub left-tip : (n : ℕ) (u : Ul) → 0 < tip u → left n u ≡ holds_empty u
unfolding left left_by holds_empty tip has_no_items
left-tip zero u p = refl
left-tip (suc n) empty p = refl
left-tip (suc n) (leaf e empty) p = refl
left-tip (suc n) (leaf e r) p = left-tip (suc n) r p
left-tip (suc n) (branch e s empty) p =
    ground (arith, left-tip n s (positive_inside (tip s) p), tip_ne s (positive_inside (tip s) p))
left-tip (suc n) (branch e s r) p =
    ap (λ b. has_no_items s || (holds_empty s || b)) (left-tip (suc n) r p)
left-tip (suc n) (wrapper s empty) p =
    ground (arith, left-tip n s (positive_inside (tip s) p), tip_ne s (positive_inside (tip s) p))
left-tip (suc n) (wrapper s r) p =
    ap (λ b. has_no_items s || (holds_empty s || b)) (left-tip (suc n) r p)
