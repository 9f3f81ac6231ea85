-- ===== src/Doctools/Highlight/Content.antt =====
-- The text of nodes before and after `highlightText` (doctools.js).
use sbt_example.Common.{
  ℕ, zero, suc, ◌+◌, ◌≡◌, refl, ap, sym, ◌∙◌, Str, Bool, true, false, [], ◌++◌, append_assoc,
  append-nil, take, drop, length, take-append-drop, drop-drop, if_both, Option-cases, inl, inr,
}
use sbt_example.Doctools.Highlight.Each.{each_child_rule}
use sbt_example.Doctools.Highlight.{
  Node, text, element, other, Nodes, nil, cons, append_nodes, has_class, is_control, position,
  split_text, highlight_text, each_child, highlight,
}

-- The text of a node, as `textContent` gives it.
unfoldable mutual
  pub content : Node → Str
  content (text val) = val
  content (element tag classes ns) = contents ns
  content other = []

  pub contents : Nodes → Str
  contents nil = []
  contents (cons n ns) = content n ++ contents ns

pub contents-append_nodes :
    (ns ms : Nodes) → contents (append_nodes ns ms) ≡ contents ns ++ contents ms
unfolding content append_nodes
contents-append_nodes nil ms = refl
contents-append_nodes (cons n ns) ms =
    ap (λ s. content n ++ s) (contents-append_nodes ns ms)
    ∙ sym (append_assoc (content n) (contents ns) (contents ms))

cut_in_three :
    (n pos : ℕ) (val : Str) → take pos val ++ (take n (drop pos val) ++ drop (pos + n) val) ≡ val
cut_in_three n pos val =
    rw (← drop-drop pos n val, take-append-drop n (drop pos val)) (take-append-drop pos val)

-- A visit that keeps the text.
abbrev Keeps : (Node → Nodes) → Type 0
Keeps visit = (n : Node) → contents (visit n) ≡ content n

each_child-contents :
    (visit : Node → Nodes)
    → Keeps visit
    → (rounds : ℕ) (ns : Nodes) → contents (each_child visit rounds ns) ≡ contents ns
unfolding content
each_child-contents visit keeps =
    each_child_rule (λ ns ms. contents ms ≡ contents ns) visit (λ ns. refl)
      (λ n ns ms e ih.
        let nothing : [] ≡ content n = ap contents (sym e) ∙ keeps n in
        ih ∙ ap (λ s. s ++ contents ns) nothing)
      (λ n first more ns ms e ih.
        let whole : content first ++ contents more ≡ content n = ap contents (sym e) ∙ keeps n in
        ap (λ s. content first ++ s) (ih ∙ contents-append_nodes more ns)
        ∙ sym (append_assoc (content first) (contents more) (contents ns))
        ∙ ap (λ s. s ++ contents ns) whole)

module _ (fold : ℕ → ℕ) (term class_name : Str) where
  split_text-contents :
      (val : Str) (pos : ℕ) → contents (split_text fold term class_name val pos) ≡ val
  unfolding content split_text
  split_text-contents val pos = simp (append-nil) (cut_in_three (length term) pos val)

  highlight_text-contents :
      (marked : Bool) (val : Str) → contents (highlight_text fold term class_name marked val) ≡ val
  unfolding content highlight_text
  highlight_text-contents true val = append-nil val
  highlight_text-contents false val = elim (Option-cases (position fold term class_name val)) [
    | inl missing ↦ rw (missing, highlight_text) (append-nil val)
    | inr (pos, found) ↦ rw (found, highlight_text) (split_text-contents val pos)
  ]

  -- Highlighting changes no text: what a reader sees of a node is what was there before.
  pub highlight-contents :
      (depth : ℕ) (marked : Bool) (n : Node)
      → contents (highlight fold term class_name depth marked n) ≡ content n
  unfolding content highlight
  highlight-contents zero marked n = append-nil (content n)
  highlight-contents (suc depth) marked (text val) = highlight_text-contents marked val
  highlight-contents (suc depth) marked other = refl
  highlight-contents (suc depth) marked (element tag classes ns) =
      append-nil _
      ∙ if_both (λ ms. contents ms ≡ contents ns) (is_control tag) ns _ refl
          (each_child-contents _ (highlight-contents depth (has_class class_name classes)) _ ns)
