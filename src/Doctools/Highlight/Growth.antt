-- ===== src/Doctools/Highlight/Growth.antt =====
-- How large a node grows when it is searched (doctools.js, `highlightText`).
use mathlib.Core.Path.{subst}
use sbt_example.Common.{
  ℕ, zero, suc, ◌+◌, ◌*◌, ◌≤◌, ◌≡◌, Str, Bool, true, false, arith, if_both, Option-cases, inl, inr,
  same_refl,
}
use sbt_example.Doctools.Highlight.Each.{Nodes-cases}
use sbt_example.Doctools.Highlight.Reach.{size, sizes, sizes-append_nodes}
use sbt_example.Doctools.Highlight.{
  Node, text, element, other, Nodes, nil, cons, append_nodes, child_count, has_class, is_control,
  position, split_text, highlight_text, each_child, highlight,
}

-- What rounds can add among children: nothing below an element with the class, three nodes a round
-- below others.
unfoldable gain : Bool → ℕ → ℕ
gain true rounds = 0
gain false rounds = 3 * rounds

gain-suc :
    (marked : Bool) (rounds : ℕ) → gain marked (suc rounds) ≡ gain marked 1 + gain marked rounds
unfolding gain
gain-suc true rounds = omega arith
gain-suc false rounds = omega arith

gain_bounded : (marked : Bool) (rounds : ℕ) → gain marked rounds ≤ 3 * rounds
unfolding gain
gain_bounded true rounds = omega arith
gain_bounded false rounds = omega arith

child_count_bounded : (ns : Nodes) → child_count ns ≤ sizes ns
unfolding child_count size
child_count_bounded nil = omega arith
child_count_bounded (cons (text val) ns) = omega (arith, child_count_bounded ns)
child_count_bounded (cons (element tag classes ms) ns) = omega (arith, child_count_bounded ns)
child_count_bounded (cons other ns) = omega (arith, child_count_bounded ns)

module _ (fold : ℕ → ℕ) (term class_name : Str) where
  -- What the rounds below a node can add.
  unfoldable mutual
    room : Node → ℕ
    room (text val) = 0
    room (element tag classes ns) = gain (has_class class_name classes) (child_count ns) + rooms ns
    room other = 0

    rooms : Nodes → ℕ
    rooms nil = 0
    rooms (cons n ns) = room n + rooms ns

  rooms-append_nodes : (ns ms : Nodes) → rooms (append_nodes ns ms) ≡ rooms ns + rooms ms
  unfolding room append_nodes
  rooms-append_nodes nil ms = omega arith
  rooms-append_nodes (cons n ns) ms = omega (arith, rooms-append_nodes ns ms)

  -- The room is three nodes for each node below.
  mutual
    unfolding room size child_count

    room_bounded : (n : Node) → room n + 3 ≤ 3 * size n
    room_bounded (text val) = omega arith
    room_bounded (element tag classes ns) =
        omega
          (arith, rooms_bounded ns, gain_bounded (has_class class_name classes) (child_count ns))
    room_bounded other = omega arith

    rooms_bounded : (ns : Nodes) → rooms ns + 3 * child_count ns ≤ 3 * sizes ns
    rooms_bounded nil = omega arith
    rooms_bounded (cons n ns) = omega (arith, room_bounded n, rooms_bounded ns)

  -- What stands for a node, with the room that is left in it but for its first node.
  unfoldable IsBounded : Bool → Node → Nodes → Type 0
  IsBounded marked n nil = Unit
  IsBounded marked n (cons first more) =
      size first + sizes more + rooms more ≤ size n + room n + gain marked 1

  each_child-bounded :
      (visit : Node → Nodes) (marked : Bool)
      → ((n : Node) → IsBounded marked n (visit n))
      → (rounds : ℕ) (ns : Nodes)
      → sizes (each_child visit rounds ns) ≤ sizes ns + rooms ns + gain marked rounds
  unfolding each_child size room append_nodes IsBounded
  each_child-bounded visit marked bounded zero ns = omega arith
  each_child-bounded visit marked bounded (suc rounds) nil = omega arith
  each_child-bounded visit marked bounded (suc rounds) (cons n ns) =
      let step = gain-suc marked rounds in
      elim (Nodes-cases (visit n)) [
        | inl gone ↦
            let ih = each_child-bounded visit marked bounded rounds ns in
            rw (gone, each_child) (omega arith)
        | inr (first, more, e) ↦
            let ih = each_child-bounded visit marked bounded rounds (append_nodes more ns) in
            let here : IsBounded marked n (cons first more) =
              subst (IsBounded marked n) e (bounded n) in
            rw (e, each_child)
              (omega (arith, sizes-append_nodes more ns, rooms-append_nodes more ns))
      ]

  same-IsBounded : (marked : Bool) (n : Node) → IsBounded marked n (cons n nil)
  unfolding IsBounded size room
  same-IsBounded marked n = omega arith

  highlight_text-IsBounded :
      (marked : Bool) (val : Str)
      → IsBounded marked (text val) (highlight_text fold term class_name marked val)
  unfolding IsBounded size room highlight_text split_text gain has_class child_count
  highlight_text-IsBounded true val = omega arith
  highlight_text-IsBounded false val = elim (Option-cases (position fold term class_name val)) [
    | inl missing ↦ rw (missing, highlight_text) (omega arith)
    | inr (pos, found) ↦ rw (found, highlight_text) (rw (same_refl class_name) (omega arith))
  ]

  highlight-IsBounded :
      (depth : ℕ) (marked : Bool) (n : Node)
      → IsBounded marked n (highlight fold term class_name depth marked n)
  unfolding highlight IsBounded size room
  highlight-IsBounded zero marked n = same-IsBounded marked n
  highlight-IsBounded (suc depth) marked (text val) = highlight_text-IsBounded marked val
  highlight-IsBounded (suc depth) marked other = same-IsBounded marked other
  highlight-IsBounded (suc depth) marked (element tag classes ns) =
      let below =
        if_both
          (λ ms.
            sizes ms ≤ sizes ns + rooms ns + gain (has_class class_name classes) (child_count ns))
          (is_control tag) ns _ (omega arith)
          (each_child-bounded _ (has_class class_name classes)
            (highlight-IsBounded depth (has_class class_name classes)) (child_count ns) ns) in
      omega arith

  total-bounded :
      (marked : Bool) (n : Node) (ns : Nodes) → IsBounded marked n ns → sizes ns ≤ 4 * size n
  unfolding IsBounded size
  total-bounded marked n nil h = omega arith
  total-bounded marked n (cons first more) h = omega (arith, room_bounded n, gain_bounded marked 1)

  -- With any fuel, what `highlightText` leaves in the place of a node has at most four times as
  -- many nodes, however many times the term stands in it.
  pub highlight-size :
      (depth : ℕ) (marked : Bool) (n : Node)
      → sizes (highlight fold term class_name depth marked n) ≤ 4 * size n
  highlight-size depth marked n = total-bounded marked n _ (highlight-IsBounded depth marked n)
