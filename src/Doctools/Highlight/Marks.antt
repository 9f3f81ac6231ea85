-- ===== src/Doctools/Highlight/Marks.antt =====
-- Visits of `highlightText` (doctools.js) to the nodes that it has made itself.
use sbt_example.Common.{
  ℕ, zero, suc, ◌≡◌, refl, ap, ◌∙◌, Str, Bool, true, [], ◌∷◌, units, same, same_refl,
}
use sbt_example.Doctools.Highlight.Each.{each_child_kept}
use sbt_example.Doctools.Highlight.{
  Node, text, element, nil, cons, append_nodes, child_count, has_class, is_control, highlight_text,
  each_child, highlight,
}

module _ (fold : ℕ → ℕ) (term class_name : Str) where
  abbrev pub mark : Str → Node
  mark val = element (units "span") (class_name ∷ []) (cons (text val) nil)

  pub marked_text :
      (depth : ℕ) (val : Str)
      → highlight fold term class_name depth true (text val) ≡ cons (text val) nil
  unfolding highlight highlight_text
  marked_text zero val = refl
  marked_text (suc depth) val = refl

  has_own_class : has_class class_name (class_name ∷ []) ≡ true
  unfolding has_class
  has_own_class = rw (same_refl class_name)

  marked_child :
      (depth : ℕ) (val : Str)
      → each_child (highlight fold term class_name depth true) 1 (cons (text val) nil)
        ≡ cons (text val) nil
  marked_child depth val =
      each_child_kept _ 0 (text val) nil (text val) nil (marked_text depth val)
      ∙ unfold each_child append_nodes in refl

  pub highlight-mark :
      (depth : ℕ) (marked : Bool) (val : Str)
      → highlight fold term class_name depth marked (mark val) ≡ cons (mark val) nil
  unfolding highlight is_control same child_count
  highlight-mark zero marked val = refl
  highlight-mark (suc depth) marked val =
      rw (has_own_class)
        (ap (λ ns. cons (element (units "span") (class_name ∷ []) ns) nil) (marked_child depth val))
