-- ===== src/Toc/Outline/Depths.antt =====
-- The list that toc.js builds, read back as its entries with their depths.
use native.Mathlib.Nat.{add-zero}
use sbt_example.Common.{
  ℕ, zero, suc, ◌+◌, ◌≡◌, refl, sym, ap, ◌∙◌, ◌≢◌, append-nil, List, [], ◌∷◌, ◌++◌, append_assoc,
  arith, max, ◌-◌,
}
use sbt_example.Toc.Outline.{
  Entry, Ul, empty, leaf, branch, wrapper, append_list, check_container, append_leaf, ensure_list,
  in_last, descend, append_to_toc,
}

-- The entries in the order of the document, each with the number of lists around it.
unfoldable pub outline : ℕ → Ul → List (ℕ × Entry)
outline d empty = []
outline d (leaf e r) = (d, e) ∷ outline d r
outline d (branch e s r) = (d, e) ∷ (outline (suc d) s ++ outline d r)
outline d (wrapper s r) = outline (suc d) s ++ outline d r

outline-append_leaf :
    (d : ℕ) (e : Entry) (u : Ul) → outline d (append_leaf e u) ≡ outline d u ++ (d, e) ∷ []
unfolding outline append_leaf
outline-append_leaf d e empty = refl
outline-append_leaf d e (leaf x r) = simp (outline-append_leaf d e r)
outline-append_leaf d e (branch x s r) = simp (outline-append_leaf d e r, append_assoc)
outline-append_leaf d e (wrapper s r) = simp (outline-append_leaf d e r, append_assoc)

outline-ensure_list : (d : ℕ) (u : Ul) → outline d (ensure_list u) ≡ outline d u
unfolding outline ensure_list
outline-ensure_list d empty = refl
outline-ensure_list d (leaf e empty) = refl
outline-ensure_list d (branch e s empty) = refl
outline-ensure_list d (wrapper s empty) = refl
outline-ensure_list d (leaf e r) = ap (λ l. (d, e) ∷ l) (outline-ensure_list d r)
outline-ensure_list d (branch e s r) =
    ap (λ l. (d, e) ∷ (outline (suc d) s ++ l)) (outline-ensure_list d r)
outline-ensure_list d (wrapper s r) = ap (λ l. outline (suc d) s ++ l) (outline-ensure_list d r)

pub ensure_list-ne-empty : (u : Ul) → ensure_list u ≢ empty
unfolding ensure_list
ensure_list-ne-empty empty e = cc
ensure_list-ne-empty (leaf x empty) e = cc
ensure_list-ne-empty (branch x s empty) e = cc
ensure_list-ne-empty (wrapper s empty) e = cc
ensure_list-ne-empty (leaf x r) e = cc
ensure_list-ne-empty (branch x s r) e = cc
ensure_list-ne-empty (wrapper s r) e = cc

-- A change inside the last list goes past an item that others follow.
module _ (f : Ul → Ul) where
  pub in_last-leaf : (x : Entry) (r : Ul) → r ≢ empty → in_last f (leaf x r) ≡ leaf x (in_last f r)
  unfolding in_last
  in_last-leaf x empty n = absurd (n refl)
  in_last-leaf x (leaf _ _) n = refl
  in_last-leaf x _ n = refl

  pub in_last-branch :
      (x : Entry) (s r : Ul) → r ≢ empty → in_last f (branch x s r) ≡ branch x s (in_last f r)
  unfolding in_last
  in_last-branch x s empty n = absurd (n refl)
  in_last-branch x s (leaf _ _) n = refl
  in_last-branch x s _ n = refl

  pub in_last-wrapper : (s r : Ul) → r ≢ empty → in_last f (wrapper s r) ≡ wrapper s (in_last f r)
  unfolding in_last
  in_last-wrapper s empty n = absurd (n refl)
  in_last-wrapper s (leaf _ _) n = refl
  in_last-wrapper s _ n = refl

module _ (f : Ul → Ul) (d : ℕ) (new : List (ℕ × Entry))
    (adds : (s : Ul) → outline (suc d) (f s) ≡ outline (suc d) s ++ new) where
  -- What a change adds at the end of the last list is added at the end of the whole.
  outline-in_last : (u : Ul) → outline d (in_last f (ensure_list u)) ≡ outline d u ++ new
  unfolding outline ensure_list in_last
  outline-in_last empty = rw (adds empty) (append-nil new)
  outline-in_last (leaf e empty) = ap (λ l. (d, e) ∷ l) (rw (adds empty) (append-nil new))
  outline-in_last (branch e s empty) = simp (adds s, append-nil)
  outline-in_last (wrapper s empty) = simp (adds s, append-nil)
  outline-in_last (leaf e r) =
      ap (outline d) (in_last-leaf f e (ensure_list r) (ensure_list-ne-empty r))
      ∙ ap (λ l. (d, e) ∷ l) (outline-in_last r)
  outline-in_last (branch e s r) =
      ap (outline d) (in_last-branch f e s (ensure_list r) (ensure_list-ne-empty r))
      ∙ ap (λ l. (d, e) ∷ (outline (suc d) s ++ l)) (outline-in_last r)
      ∙ ap (λ l. (d, e) ∷ l) (sym (append_assoc (outline (suc d) s) (outline d r) new))
  outline-in_last (wrapper s r) =
      ap (outline d) (in_last-wrapper f s (ensure_list r) (ensure_list-ne-empty r))
      ∙ ap (λ l. outline (suc d) s ++ l) (outline-in_last r)
      ∙ sym (append_assoc (outline (suc d) s) (outline d r) new)

outline-descend :
    (n d : ℕ) (e : Entry) (u : Ul) → outline d (descend n e u) ≡ outline d u ++ (d + n, e) ∷ []
unfolding descend
outline-descend zero d e u = rw add-zero (outline-append_leaf d e u)
outline-descend (suc n) d e u =
    let deeper : suc d + n ≡ d + suc n = omega arith in
    outline-in_last (descend n e) d ((d + suc n, e) ∷ [])
      (λ s. outline-descend n (suc d) e s ∙ ap (λ k. outline (suc d) s ++ (k, e) ∷ []) deeper) u

-- `appendToTOC` puts the entry behind all others, below as many lists as its index says (one, if
-- the index is 0), and leaves the others as they are.
pub outline-append_to_toc :
    (toc : Ul) (index : ℕ) (e : Entry)
    → outline 1 (append_to_toc toc index e) ≡ outline 1 toc ++ (max 1 index, e) ∷ []
unfolding append_to_toc
outline-append_to_toc toc index e =
    let depth : 1 + (index - 1) ≡ max 1 index = omega arith in
    outline-descend (index - 1) 1 e toc ∙ ap (λ k. outline 1 toc ++ (k, e) ∷ []) depth

outline-append_list : (d : ℕ) (u : Ul) → outline d (append_list u) ≡ outline d u
unfolding outline append_list
outline-append_list d empty = refl
outline-append_list d (leaf e empty) = refl
outline-append_list d (branch e s empty) =
    ap (λ l. (d, e) ∷ (l ++ [])) (outline-append_list (suc d) s)
outline-append_list d (wrapper s empty) = ap (λ l. l ++ []) (outline-append_list (suc d) s)
outline-append_list d (leaf e r) = ap (λ l. (d, e) ∷ l) (outline-append_list d r)
outline-append_list d (branch e s r) =
    ap (λ l. (d, e) ∷ (outline (suc d) s ++ l)) (outline-append_list d r)
outline-append_list d (wrapper s r) = ap (λ l. outline (suc d) s ++ l) (outline-append_list d r)

-- `checkContainer` adds no entry and moves none.
pub outline-check_container :
    (d header : ℕ) (u : Ul) → outline d (check_container header u) ≡ outline d u
unfolding check_container
outline-check_container d header u = ground (arith, outline-append_list d u)
