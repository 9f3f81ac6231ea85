-- ===== src/Doctools/Highlight/Hits.antt =====
-- The elements that `highlightText` (doctools.js) marks.
use mathlib.Core.Path.{subst}
use sbt_example.Common.{
  ℕ, zero, suc, ◌≡◌, ap, sym, ◌∙◌, Str, Bool, true, false, some, map, take, drop, length,
  Option-cases, inl, inr, if_both, take-map, drop-map,
}
use sbt_example.Js.Text.Laws.{take-index_of}
use sbt_example.Doctools.Highlight.Each.{each_child_rule, each_child_kept}
use sbt_example.Doctools.Highlight.Marks.{marked_text}
use sbt_example.Doctools.Highlight.{
  Node, text, element, other, Nodes, nil, cons, append_nodes, child_count, has_class, is_control,
  position, split_text, highlight_text, each_child, highlight,
}

module _ (fold : ℕ → ℕ) (term class_name : Str) where
  -- The nodes below a marked element are one text, which is the term but for case.
  abbrev pub IsHit : Nodes → Type 0
  IsHit nil = ⊥
  IsHit (cons (text val) nil) = map fold val ≡ term
  IsHit (cons (text val) (cons _ _)) = ⊥
  IsHit (cons (element _ _ _) _) = ⊥
  IsHit (cons other _) = ⊥

  -- Every element that has the class is a hit.
  unfoldable mutual
    pub AreHits : Node → Type 0
    AreHits (text val) = Unit
    AreHits (element tag classes ns) =
        (has_class class_name classes ≡ true → IsHit ns) × AreHitsBelow ns
    AreHits other = Unit

    pub AreHitsBelow : Nodes → Type 0
    AreHitsBelow nil = Unit
    AreHitsBelow (cons n ns) = AreHits n × AreHitsBelow ns

  AreHitsBelow-append_nodes :
      (ns ms : Nodes) → AreHitsBelow ns → AreHitsBelow ms → AreHitsBelow (append_nodes ns ms)
  unfolding AreHits append_nodes
  AreHitsBelow-append_nodes nil ms h k = k
  AreHitsBelow-append_nodes (cons n ns) ms (h, hs) k = (h, AreHitsBelow-append_nodes ns ms hs k)

  -- What is marked at the position of a match is the term but for case.
  match_is_term :
      (val : Str) (pos : ℕ)
      → position fold term class_name val ≡ some pos
      → map fold (take (length term) (drop pos val)) ≡ term
  unfolding position
  match_is_term val pos found =
      sym (take-map fold (length term) (drop pos val))
      ∙ ap (take (length term)) (sym (drop-map fold pos val))
      ∙ take-index_of term (map fold val) pos found

  highlight_text-AreHits :
      (marked : Bool) (val : Str) → AreHitsBelow (highlight_text fold term class_name marked val)
  unfolding AreHits highlight_text split_text
  highlight_text-AreHits true val = (tt, tt)
  highlight_text-AreHits false val = elim (Option-cases (position fold term class_name val)) [
    | inl missing ↦ rw (missing, highlight_text) (tt, tt)
    | inr (pos, found) ↦
        rw (found, highlight_text) (tt, (((λ _. match_is_term val pos found), (tt, tt)), (tt, tt)))
  ]

  each_child-AreHits :
      (visit : Node → Nodes)
      → ((n : Node) → AreHits n → AreHitsBelow (visit n))
      → (rounds : ℕ) (ns : Nodes) → AreHitsBelow ns
      → AreHitsBelow (each_child visit rounds ns)
  unfolding AreHits
  each_child-AreHits visit keeps =
      each_child_rule (λ ns ms. AreHitsBelow ns → AreHitsBelow ms) visit (λ ns h. h)
        (λ n ns ms e ih (h, hs). ih hs)
        (λ n first more ns ms e ih (h, hs).
          let (f, m) = subst AreHitsBelow e (keeps n h) in
          (f, ih (AreHitsBelow-append_nodes more ns m hs)))

  each_child-IsHit :
      (depth rounds : ℕ) (ns : Nodes)
      → IsHit ns
      → IsHit (each_child (highlight fold term class_name depth true) rounds ns)
  each_child-IsHit depth zero ns h = unfold each_child in h
  each_child-IsHit depth (suc rounds) (cons (text val) nil) h =
      rw
        (each_child_kept _ rounds (text val) nil (text val) nil
          (marked_text fold term class_name depth val))
        (last rounds)
    where
      last :
          (r : ℕ)
          → IsHit (
              cons
                (text val)
                (each_child (highlight fold term class_name depth true) r (append_nodes nil nil)))
      last zero = unfold each_child append_nodes in h
      last (suc r) = unfold each_child append_nodes in h
  each_child-IsHit depth (suc rounds) nil h = elim h [ ]
  each_child-IsHit depth (suc rounds) (cons (text val) (cons _ _)) h = elim h [ ]
  each_child-IsHit depth (suc rounds) (cons (element _ _ _) _) h = elim h [ ]
  each_child-IsHit depth (suc rounds) (cons other _) h = elim h [ ]

  -- If every element below a node that has the class held the term alone, ignoring case, the same
  -- is true of what highlighting makes of the node.
  pub highlight-AreHits :
      (depth : ℕ) (marked : Bool) (n : Node)
      → AreHits n
      → AreHitsBelow (highlight fold term class_name depth marked n)
  unfolding AreHits highlight
  highlight-AreHits zero marked n h = (h, tt)
  highlight-AreHits (suc depth) marked (text val) h = highlight_text-AreHits marked val
  highlight-AreHits (suc depth) marked other h = (tt, tt)
  highlight-AreHits (suc depth) marked (element tag classes ns) (hit, below) =
      let m = has_class class_name classes in
      (
        (
          λ yes_class.
              if_both IsHit (is_control tag) ns _ (hit yes_class)
                (rw yes_class (each_child-IsHit depth (child_count ns) ns (hit yes_class))),
          if_both AreHitsBelow (is_control tag) ns _ below
              (each_child-AreHits _ (highlight-AreHits depth m) (child_count ns) ns below),
        ),
        tt,
      )
