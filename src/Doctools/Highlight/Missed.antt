-- ===== src/Doctools/Highlight/Missed.antt =====
-- The nodes that the loop of `highlightText` (doctools.js) over the child nodes leaves out.
use sbt_example.Common.{
  ℕ, suc, ◌+◌, ◌≡◌, refl, ap, ◌∙◌, Str, Bool, false, some, List, length, take, drop,
}
use sbt_example.Doctools.Highlight.Each.{each_child_kept}
use sbt_example.Doctools.Highlight.Marks.{mark, highlight-mark}
use sbt_example.Doctools.Highlight.{
  Node, text, element, nil, cons, append_nodes, child_count, has_class, is_control, position,
  split_text, highlight_text, each_child, highlight,
}

module _ (fold : ℕ → ℕ) (term class_name : Str) where
  -- The text is split by the first visit.
  first_visit :
      (depth : ℕ) (val : Str) (pos : ℕ)
      → position fold term class_name val ≡ some pos
      → highlight fold term class_name (suc depth) false (text val)
        ≡ split_text fold term class_name val pos
  unfolding highlight highlight_text
  first_visit depth val pos found = rw found

  two_rounds :
      (depth : ℕ) (val : Str) (pos : ℕ) (follows : Node)
      → position fold term class_name val ≡ some pos
      → each_child
          (highlight fold term class_name (suc depth) false)
          2
          (cons (text val) (cons follows nil))
        ≡ append_nodes (split_text fold term class_name val pos) (cons follows nil)
  unfolding split_text append_nodes
  two_rounds depth val pos follows found =
      let rest = text (drop (pos + length term) val) in
      let hit = take (length term) (drop pos val) in
      each_child_kept _ 1 (text val) (cons follows nil) (text (take pos val))
        (cons (mark fold term class_name hit) (cons rest nil)) (first_visit depth val pos found)
      ∙ ap (cons (text (take pos val))) (
          each_child_kept _ 0 (mark fold term class_name hit) (cons rest (cons follows nil))
            (mark fold term class_name hit) nil
            (highlight-mark fold term class_name (suc depth) false hit)
          ∙ unfold each_child in refl)

  -- Below an element that is no control and not marked, let a text that has the term come first
  -- and one more node follow. The two rounds are spent on two of the three pieces that the text
  -- is split into: neither the rest of the text nor the node that follows is searched, whatever
  -- they hold.
  pub highlight_missed :
      (depth : ℕ) (marked : Bool) (tag : Str) (classes : List Str) (val : Str) (pos : ℕ)
      (follows : Node)
      → is_control tag ≡ false
      → has_class class_name classes ≡ false
      → position fold term class_name val ≡ some pos
      → highlight fold term class_name
          (suc (suc depth))
          marked
          (element tag classes (cons (text val) (cons follows nil)))
        ≡ cons
            (element tag classes
              (append_nodes (split_text fold term class_name val pos) (cons follows nil)))
            nil
  unfolding highlight child_count
  highlight_missed depth marked tag classes val pos follows c m found = rw c (
      ap
        (λ b.
          cons
            (element tag classes (
              each_child (highlight fold term class_name (suc depth) b) 2
                (cons (text val) (cons follows nil))))
            nil)
        m
      ∙ ap (λ ns. cons (element tag classes ns) nil) (two_rounds depth val pos follows found))
