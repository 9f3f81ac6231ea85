-- ===== src/Doctools/Highlight/Depth.antt =====
-- The height of nodes, which is the fuel of the search in `highlightText` (doctools.js).
use mathlib.Core.Path.{subst}
use sbt_example.Common.{
  ℕ, zero, suc, ◌≤◌, ◌<◌, ◌≡◌, inl, inr, refl, ap, sym, ◌∙◌, Str, Bool, true, false, arith,
  if◌then◌else◌, Option-cases,
}
use sbt_example.Doctools.Highlight.Each.{Nodes-cases, each_child_kept, each_child_gone}
use sbt_example.Doctools.Highlight.Marks.{mark, highlight-mark}
use sbt_example.Doctools.Highlight.{
  Node, text, element, other, Nodes, nil, cons, append_nodes, child_count, has_class, is_control,
  position, split_text, highlight_text, each_child, highlight, height, height_below,
}

module _ (fold : ℕ → ℕ) (term class_name : Str) where
  -- Nodes on which the depth does not matter from `d` on: low ones, and those the search has made.
  data IsCovered (d : ℕ) : Node → Type 0 where
    low : (n : Node) → height n ≤ d → IsCovered d n
    made : (val : Str) → IsCovered d (mark fold term class_name val)

  AreCovered : ℕ → Nodes → Type 0
  AreCovered d nil = Unit
  AreCovered d (cons n ns) = IsCovered d n × AreCovered d ns

  AreCovered-append_nodes :
      (d : ℕ) (ns ms : Nodes)
      → AreCovered d ns
      → AreCovered d ms
      → AreCovered d (append_nodes ns ms)
  unfolding AreCovered append_nodes
  AreCovered-append_nodes d nil ms h k = k
  AreCovered-append_nodes d (cons n ns) ms (h, hs) k = (h, AreCovered-append_nodes d ns ms hs k)

  AreCovered-of_height : (d : ℕ) (ns : Nodes) → height_below ns ≤ d → AreCovered d ns
  unfolding AreCovered height
  AreCovered-of_height d nil h = tt
  AreCovered-of_height d (cons n ns) h =
      (low n (omega arith), AreCovered-of_height d ns (omega arith))

  tail_nodes : Nodes → Nodes
  tail_nodes nil = nil
  tail_nodes (cons n ns) = ns

  -- What a visit of a covered node adds behind it is covered.
  text-AreCovered :
      (d : ℕ) (marked : Bool) (val : Str)
      → height (text val) ≤ d
      → AreCovered d (tail_nodes (highlight_text fold term class_name marked val))
  unfolding highlight_text split_text AreCovered tail_nodes height
  text-AreCovered d true val h = tt
  text-AreCovered d false val h = elim (Option-cases (position fold term class_name val)) [
    | inl missing ↦ rw (missing, highlight_text) tt
    | inr (pos, found) ↦ rw (found, highlight_text) (made _, (low (text _) h, tt))
  ]

  visit-AreCovered :
      (d depth : ℕ) (marked : Bool) (n : Node)
      → IsCovered d n
      → AreCovered d (tail_nodes (highlight fold term class_name depth marked n))
  visit-AreCovered d depth marked n (made val) =
      rw (highlight-mark fold term class_name depth marked val) (unfold tail_nodes AreCovered in tt)
  visit-AreCovered d zero marked n (low _ h) = unfold highlight tail_nodes AreCovered in tt
  visit-AreCovered d (suc depth) marked (text val) (low _ h) =
      unfold highlight in text-AreCovered d marked val h
  visit-AreCovered d (suc depth) marked (element tag classes ns) (low _ h) =
      unfold highlight tail_nodes AreCovered in tt
  visit-AreCovered d (suc depth) marked other (low _ h) =
      unfold highlight tail_nodes AreCovered in tt

  module _ (d : ℕ) (f g : Node → Nodes) (agree : (n : Node) → IsCovered d n → f n ≡ g n)
      (covers : (n : Node) → IsCovered d n → AreCovered d (tail_nodes (f n))) where
    each_child_agree :
        (rounds : ℕ) (ns : Nodes)
        → AreCovered d ns
        → each_child f rounds ns ≡ each_child g rounds ns
    unfolding AreCovered tail_nodes
    each_child_agree zero ns c = unfold each_child in refl
    each_child_agree (suc rounds) nil c = unfold each_child in refl
    each_child_agree (suc rounds) (cons n ns) (here, later) = elim (Nodes-cases (f n)) [
      | inl e ↦
          each_child_gone f rounds n ns e
          ∙ each_child_agree rounds ns later
          ∙ sym (each_child_gone g rounds n ns (sym (agree n here) ∙ e))
      | inr (first, more, e) ↦
          let added : AreCovered d more =
            subst (λ v. AreCovered d (tail_nodes v)) e (covers n here) in
          each_child_kept f rounds n ns first more e
          ∙ ap (cons first) (
              each_child_agree rounds (append_nodes more ns)
                (AreCovered-append_nodes d more ns added later))
          ∙ sym (each_child_kept g rounds n ns first more (sym (agree n here) ∙ e))
    ]

  height-pos : (n : Node) → 0 < height n
  unfolding height
  height-pos (text val) = omega arith
  height-pos (element tag classes ns) = omega arith
  height-pos other = omega arith

  agree_of :
      (c d e : ℕ) (marked : Bool)
      → ((n : Node)
          → height n ≤ c
          → highlight fold term class_name d marked n ≡ highlight fold term class_name e marked n)
      → (n : Node) → IsCovered c n
      → highlight fold term class_name d marked n ≡ highlight fold term class_name e marked n
  agree_of c d e marked ih n (low _ h) = ih n h
  agree_of c d e marked ih n (made val) =
      highlight-mark fold term class_name d marked val
      ∙ sym (highlight-mark fold term class_name e marked val)

  -- Fuel of at least the height of a node is enough: more of it changes nothing.
  pub highlight_enough :
      (d e : ℕ) (marked : Bool) (n : Node)
      → height n ≤ d
      → height n ≤ e
      → highlight fold term class_name d marked n ≡ highlight fold term class_name e marked n
  unfolding highlight height
  highlight_enough zero e marked n h k = absurd (omega (arith, height-pos n))
  highlight_enough (suc d) zero marked n h k = absurd (omega (arith, height-pos n))
  highlight_enough (suc d) (suc e) marked (text val) h k = refl
  highlight_enough (suc d) (suc e) marked other h k = refl
  highlight_enough (suc d) (suc e) marked (element tag classes ns) h k =
      let b = has_class class_name classes in
      let c = height_below ns in
      ap (λ ms. cons (element tag classes (if is_control tag then ns else ms)) nil)
        (each_child_agree c (highlight fold term class_name d b)
          (highlight fold term class_name e b)
          (agree_of c d e b (λ n p. highlight_enough d e b n (omega arith) (omega arith)))
          (λ n p. visit-AreCovered c d b n p) (child_count ns) ns
          (AreCovered-of_height c ns (omega arith)))
