-- ===== src/Doctools/Highlight/Searched.antt =====
-- The texts that `highlightText` (doctools.js) has searched.
use sbt_example.Common.{
  ℕ, zero, suc, ◌≡◌, ◌≢◌, refl, ap, sym, ◌∙◌, Str, Bool, false, none, List, [], map, take-map,
  Option-cases, inl, inr,
}
use sbt_example.Js.Text.{index_of}
use sbt_example.Js.Text.Laws.{index_of-take}
use sbt_example.Doctools.Highlight.{
  Node, text, element, other, Nodes, nil, cons, append_nodes, child_count, has_class, is_control,
  position, split_text, highlight_text, each_child, highlight,
}

-- What holds of the nodes in front, as far as there are that many.
abbrev pub FirstAre : (Node → Type 0) → ℕ → Nodes → Type 0
FirstAre P zero ns = Unit
FirstAre P (suc k) nil = Unit
FirstAre P (suc k) (cons n ns) = P n × FirstAre P k ns

-- A visit leaves a node that has been searched in front.
abbrev Starts : (Node → Type 0) → Nodes → Type 0
Starts P nil = ⊥
Starts P (cons first more) = P first

each_child-FirstAre :
    (P : Node → Type 0) (visit : Node → Nodes)
    → ((n : Node) → Starts P (visit n))
    → (rounds : ℕ) (ns : Nodes) → FirstAre P rounds (each_child visit rounds ns)
unfolding each_child
each_child-FirstAre P visit starts zero ns = tt
each_child-FirstAre P visit starts (suc rounds) nil = tt
each_child-FirstAre P visit starts (suc rounds) (cons n ns) =
    go (visit n) (starts n) (λ ms. each_child-FirstAre P visit starts rounds ms)
  where
    go :
        (v : Nodes)
        → Starts P v
        → ((ms : Nodes) → FirstAre P rounds (each_child visit rounds ms))
        → FirstAre P (suc rounds) (elim v [
          | nil ↦ each_child visit rounds ns
          | cons first more ↦ cons first (each_child visit rounds (append_nodes more ns))
        ])
    go nil s ih = elim s [ ]
    go (cons first more) s ih = (s, ih (append_nodes more ns))

module _ (fold : ℕ → ℕ) (term class_name : Str) where
  -- A text that lacks the term, ignoring case, or a node of another kind.
  abbrev pub LacksTerm : Node → Type 0
  LacksTerm (text val) = position fold term class_name val ≡ none
  LacksTerm (element tag classes ns) = Unit
  LacksTerm other = Unit

  highlight_text-Starts :
      (val : Str) → term ≢ [] → Starts LacksTerm (highlight_text fold term class_name false val)
  unfolding highlight_text split_text position
  highlight_text-Starts val some_term = elim (Option-cases (index_of term (map fold val))) [
    | inl missing ↦ rw missing missing
    | inr (pos, found) ↦ rw found (
        ap (index_of term) (sym (take-map fold pos val))
        ∙ index_of-take term (map fold val) pos some_term found)
  ]

  highlight-Starts :
      (depth : ℕ)
      → term ≢ []
      → (n : Node) → Starts LacksTerm (highlight fold term class_name (suc depth) false n)
  unfolding highlight
  highlight-Starts depth some_term (text val) = highlight_text-Starts val some_term
  highlight-Starts depth some_term (element tag classes ns) = tt
  highlight-Starts depth some_term other = tt

  -- Below an element that is no control and not marked, with fuel for its child nodes, every text
  -- lacks the term, ignoring case, that stands among as many nodes in front as the element had
  -- child nodes before, if the term is not empty.
  pub highlight_searched :
      (depth : ℕ) (marked : Bool) (tag : Str) (classes : List Str) (ns : Nodes)
      → term ≢ []
      → is_control tag ≡ false
      → has_class class_name classes ≡ false
      → (ms : Nodes) × (highlight fold term class_name
            (suc (suc depth))
            marked
            (element tag classes ns)
          ≡ cons (element tag classes ms) nil)
        × FirstAre LacksTerm (child_count ns) ms
  unfolding highlight
  highlight_searched depth marked tag classes ns some_term free unmarked =
      let visit = highlight fold term class_name (suc depth) false in
      (
        each_child visit (child_count ns) ns,
        rw free refl
            ∙ ap
                (λ b.
                  cons
                    (element tag classes (
                      each_child (highlight fold term class_name (suc depth) b) (child_count ns)
                        ns))
                    nil)
                unmarked,
        each_child-FirstAre LacksTerm visit (highlight-Starts depth some_term) (child_count ns) ns,
      )
