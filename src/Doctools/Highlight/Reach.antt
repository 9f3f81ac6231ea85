-- ===== src/Doctools/Highlight/Reach.antt =====
-- The nodes that `highlightText` (doctools.js) changes.
use sbt_example.Common.{
  or_false, ℕ, zero, suc, ◌+◌, ◌≤◌, ◌<◌, ◌≡◌, refl, ap, Str, Bool, true, false, ◌||◌, ◌&&◌, not,
  ◌↔◌, arith, if_both, if◌then◌else◌, Bool-cases, Option-cases, inl, inr,
}
use sbt_example.Js.Text.{is_found}
use sbt_example.Doctools.Highlight.Each.{each_child_rule, Nodes-cases}
use sbt_example.Doctools.Highlight.{
  Node, text, element, other, Nodes, nil, cons, append_nodes, child_count, has_class, is_control,
  position, split_text, highlight_text, each_child, highlight, height, height_below,
}

-- The number of nodes.
unfoldable mutual
  pub size : Node → ℕ
  size (text val) = 1
  size (element tag classes ns) = suc (sizes ns)
  size other = 1

  pub sizes : Nodes → ℕ
  sizes nil = 0
  sizes (cons n ns) = size n + sizes ns

pub sizes-append_nodes : (ns ms : Nodes) → sizes (append_nodes ns ms) ≡ sizes ns + sizes ms
unfolding size append_nodes
sizes-append_nodes nil ms = omega arith
sizes-append_nodes (cons n ns) ms = omega (arith, sizes-append_nodes ns ms)

size_positive : (n : Node) → 0 < size n
unfolding size
size_positive (text val) = omega arith
size_positive (element tag classes ns) = omega arith
size_positive other = omega arith

each_child_grows :
    (visit : Node → Nodes)
    → ((n : Node) → size n ≤ sizes (visit n))
    → (rounds : ℕ) (ns : Nodes) → sizes ns ≤ sizes (each_child visit rounds ns)
unfolding size
each_child_grows visit grows =
    each_child_rule (λ ns ms. sizes ns ≤ sizes ms) visit (λ ns. omega arith)
      (λ n ns ms e ih.
        let none_left : sizes (visit n) ≡ 0 = ap sizes e in omega (arith, grows n, size_positive n))
      (λ n first more ns ms e ih.
        let parts : sizes (visit n) ≡ size first + sizes more = ap sizes e in
        omega (arith, grows n, sizes-append_nodes more ns))

module _ (fold : ℕ → ℕ) (term class_name : Str) where
  -- Whether a text with the term, ignoring case, stands in the node outside of controls and of
  -- elements with the class; `marked` says whether the node's own parent has it.
  unfoldable mutual
    pub reaches : Bool → Node → Bool
    reaches marked (text val) = not marked && is_found (position fold term class_name val)
    reaches marked (element tag classes ns) =
        if is_control tag then false else reaches_below (has_class class_name classes) ns
    reaches marked other = false

    pub reaches_below : Bool → Nodes → Bool
    reaches_below marked nil = false
    reaches_below marked (cons n ns) = reaches marked n || reaches_below marked ns

  each_child_same :
      (visit : Node → Nodes) (marked : Bool)
      → ((n : Node) → reaches marked n ≡ false → visit n ≡ cons n nil)
      → (rounds : ℕ) (ns : Nodes) → reaches_below marked ns ≡ false
      → each_child visit rounds ns ≡ ns
  unfolding each_child reaches append_nodes
  each_child_same visit marked keeps zero ns h = refl
  each_child_same visit marked keeps (suc rounds) nil h = refl
  each_child_same visit marked keeps (suc rounds) (cons n ns) h =
      let (here, later) = or_false (reaches marked n) (reaches_below marked ns) h in
      rw (keeps n here, each_child)
        (ap (cons n) (each_child_same visit marked keeps rounds ns later))

  same_unless_reached :
      (depth : ℕ) (marked : Bool) (n : Node)
      → reaches marked n ≡ false
      → highlight fold term class_name depth marked n ≡ cons n nil
  unfolding highlight reaches highlight_text is_found
  same_unless_reached zero marked n h = refl
  same_unless_reached (suc depth) true (text val) h = refl
  same_unless_reached (suc depth) false (text val) h =
      elim (Option-cases (position fold term class_name val)) [
        | inl missing ↦ rw (missing, highlight_text) refl
        | inr (pos, found) ↦ let h' = rw (found, is_found) at h in cc
      ]
  same_unless_reached (suc depth) marked other h = refl
  same_unless_reached (suc depth) marked (element tag classes ns) h =
      elim (Bool-cases (is_control tag)) [
        | inl control ↦ ap (λ ms. cons (element tag classes ms) nil) (rw control refl)
        | inr free ↦
            let below : reaches_below (has_class class_name classes) ns ≡ false = rw free at h in
            ap (λ ms. cons (element tag classes ms) nil)
              (rw free (
                each_child_same _ (has_class class_name classes)
                  (same_unless_reached depth (has_class class_name classes)) _ ns below))
      ]

  split_text_grows : (val : Str) (pos : ℕ) → 1 < sizes (split_text fold term class_name val pos)
  unfolding size split_text
  split_text_grows val pos = omega arith

  highlight_text_grows :
      (marked : Bool) (val : Str) → 1 ≤ sizes (highlight_text fold term class_name marked val)
  unfolding highlight_text size split_text
  highlight_text_grows true val = omega arith
  highlight_text_grows false val = elim (Option-cases (position fold term class_name val)) [
    | inl missing ↦ rw (missing, highlight_text) (omega arith)
    | inr (pos, found) ↦ rw (found, highlight_text) (omega arith)
  ]

  highlight_grows :
      (depth : ℕ) (marked : Bool) (n : Node)
      → size n ≤ sizes (highlight fold term class_name depth marked n)
  unfolding highlight size
  highlight_grows zero marked n = omega arith
  highlight_grows (suc depth) marked (text val) = highlight_text_grows marked val
  highlight_grows (suc depth) marked other = omega arith
  highlight_grows (suc depth) marked (element tag classes ns) =
      let below =
        if_both (λ ms. sizes ns ≤ sizes ms) (is_control tag) ns _ (omega arith)
          (each_child_grows _ (highlight_grows depth (has_class class_name classes))
            (child_count ns) ns) in
      omega arith

  -- The loop gets to the first child that a visit changes.
  each_child_changes :
      (visit : Node → Nodes) (marked : Bool)
      → ((n : Node) → size n ≤ sizes (visit n))
      → ((n : Node) → reaches marked n ≡ false → visit n ≡ cons n nil)
      → (rounds : ℕ) (ns : Nodes) → child_count ns ≤ rounds
      → ((n : Node)
          → height n ≤ height_below ns
          → reaches marked n ≡ true
          → size n < sizes (visit n))
      → reaches_below marked ns ≡ true
      → sizes ns < sizes (each_child visit rounds ns)
  unfolding size reaches child_count height each_child append_nodes
  each_child_changes visit marked grows keeps rounds nil k changes h = cc
  each_child_changes visit marked grows keeps zero (cons n ns) k changes h = absurd (omega arith)
  each_child_changes visit marked grows keeps (suc rounds) (cons n ns) k changes h =
      elim (Bool-cases (reaches marked n)) [
        | inl here ↦
            let grown = changes n (omega arith) here in
            elim (Nodes-cases (visit n)) [
              | inl gone ↦
                  let none_left : sizes (visit n) ≡ 0 = ap sizes gone in absurd (omega arith)
              | inr (first, more, e) ↦
                  let parts : sizes (visit n) ≡ size first + sizes more = ap sizes e in
                  let after = each_child_grows visit grows rounds (append_nodes more ns) in
                  rw (e, each_child) (omega (arith, sizes-append_nodes more ns))
            ]
        | inr clear ↦
            let later : reaches_below marked ns ≡ true = rw clear at h in
            let ih =
              each_child_changes visit marked grows keeps rounds ns (omega arith)
                (λ m low. changes m (omega arith)) later in
            rw (keeps n clear, each_child) (omega arith)
      ]

  split_if_reached :
      (marked : Bool) (val : Str)
      → reaches marked (text val) ≡ true
      → 1 < sizes (highlight_text fold term class_name marked val)
  unfolding reaches highlight_text is_found
  split_if_reached true val h = cc
  split_if_reached false val h = elim (Option-cases (position fold term class_name val)) [
    | inl missing ↦ let h' = rw (missing, is_found) at h in cc
    | inr (pos, found) ↦ rw (found, highlight_text) (split_text_grows val pos)
  ]

  grows_if_reached :
      (depth : ℕ) (marked : Bool) (n : Node)
      → height n ≤ depth
      → reaches marked n ≡ true
      → size n < sizes (highlight fold term class_name depth marked n)
  unfolding highlight size height reaches
  grows_if_reached zero marked (text val) k h = absurd (omega arith)
  grows_if_reached zero marked (element tag classes ns) k h = absurd (omega arith)
  grows_if_reached zero marked other k h = cc
  grows_if_reached (suc depth) marked (text val) k h = split_if_reached marked val h
  grows_if_reached (suc depth) marked other k h = cc
  grows_if_reached (suc depth) marked (element tag classes ns) k h =
      elim (Bool-cases (is_control tag)) [
        | inl control ↦ let h' = rw control at h in cc
        | inr free ↦
            let below : reaches_below (has_class class_name classes) ns ≡ true = rw free at h in
            let changed =
              each_child_changes _ (has_class class_name classes)
                (highlight_grows depth (has_class class_name classes))
                (same_unless_reached depth (has_class class_name classes)) (child_count ns) ns
                (omega arith)
                (λ m low. grows_if_reached depth (has_class class_name classes) m (omega arith))
                below in
            rw free (omega arith)
      ]

  -- With fuel for the height of a node, `highlightText` leaves the node as it is exactly if no
  -- text with the term, ignoring case, stands in it outside of controls and of the parents with
  -- the class.
  pub highlight_iff :
      (depth : ℕ) (marked : Bool) (n : Node)
      → height n ≤ depth
      → (highlight fold term class_name depth marked n ≡ cons n nil ↔ reaches marked n ≡ false)
  unfolding size
  highlight_iff depth marked n k = (
    (λ same_node. elim (Bool-cases (reaches marked n)) [
      | inl here ↦
          let grown = grows_if_reached depth marked n k here in
          let still : sizes (highlight fold term class_name depth marked n) ≡ size n + 0 =
            ap sizes same_node in
          absurd (omega arith)
      | inr clear ↦ clear
    ]),
    same_unless_reached depth marked n,
  )
