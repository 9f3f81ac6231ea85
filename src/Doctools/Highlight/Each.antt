-- ===== src/Doctools/Highlight/Each.antt =====
-- The rounds of the loop over the child nodes in `highlightText` (doctools.js).
use sbt_example.Common.{ℕ, zero, suc, ◌≡◌, ◌⊎◌, inl, inr, refl}
use sbt_example.Doctools.Highlight.{Node, Nodes, nil, cons, append_nodes, each_child}

pub Nodes-cases : (ns : Nodes) → (ns ≡ nil) ⊎ ((n : Node) × (ms : Nodes) × (ns ≡ cons n ms))
Nodes-cases nil = inl refl
Nodes-cases (cons n ms) = inr (n, ms, refl)

module _ (visit : Node → Nodes) (rounds : ℕ) (n : Node) (ns : Nodes) where
  pub each_child_gone :
      visit n ≡ nil → each_child visit (suc rounds) (cons n ns) ≡ each_child visit rounds ns
  unfolding each_child
  each_child_gone e = rw (e, each_child)

  pub each_child_kept :
      (first : Node) (more : Nodes)
      → visit n ≡ cons first more
      → each_child visit (suc rounds) (cons n ns)
        ≡ cons first (each_child visit rounds (append_nodes more ns))
  unfolding each_child
  each_child_kept first more e = rw (e, each_child)

-- The loop's rule: what each visit keeps, and what a list that is put together from parts has,
-- the loop keeps.
module _ {κ} (P : Nodes → Nodes → Type κ) (visit : Node → Nodes) (stop : (ns : Nodes) → P ns ns)
    (gone : (n : Node) (ns ms : Nodes) → visit n ≡ nil → P ns ms → P (cons n ns) ms)
    (kept : (n first : Node) (more ns ms : Nodes)
      → visit n ≡ cons first more
      → P (append_nodes more ns) ms
      → P (cons n ns) (cons first ms)) where
  pub each_child_rule : (rounds : ℕ) (ns : Nodes) → P ns (each_child visit rounds ns)
  unfolding each_child
  each_child_rule zero ns = stop ns
  each_child_rule (suc rounds) nil = stop nil
  each_child_rule (suc rounds) (cons n ns) = go (visit n) refl (λ ms. each_child_rule rounds ms)
    where
      go :
          (v : Nodes)
          → visit n ≡ v
          → ((ms : Nodes) → P ms (each_child visit rounds ms))
          → P (cons n ns) (elim v [
            | nil ↦ each_child visit rounds ns
            | cons first more ↦ cons first (each_child visit rounds (append_nodes more ns))
          ])
      go nil e ih = gone n ns _ e (ih ns)
      go (cons first more) e ih = kept n first more ns _ e (ih (append_nodes more ns))
