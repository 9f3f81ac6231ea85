-- ===== src/Doctools/Highlight.antt =====
-- doctools.js: `highlightText`, over the nodes below an element.
pub mod Each
pub mod Marks
pub mod Content
pub mod Hits
pub mod Reach
pub mod Growth
pub mod Depth
pub mod Missed
pub mod Searched
pub mod Unmark
use sbt_example.Common.{
  ℕ, zero, suc, ◌+◌, Str, units, same, Bool, true, false, not, ◌&&◌, ◌||◌, Option, none, some, List,
  [], ◌∷◌, map, max, if◌then◌else◌, take, drop, length,
}
use sbt_example.Js.Text.{index_of}

-- The nodes of a document: texts, elements with their tag, their classes and the nodes below, and
-- the other kinds, such as comments, which have none below. `Nodes` is a live `childNodes` list.
mutual
  pub data Node : Type 0 where
    text : Str → Node
    element : Str → List Str → Nodes → Node
    other : Node

  pub data Nodes : Type 0 where
    nil : Nodes
    cons : Node → Nodes → Nodes

unfoldable pub append_nodes : Nodes → Nodes → Nodes
append_nodes nil ms = ms
append_nodes (cons n ns) ms = cons n (append_nodes ns ms)

unfoldable pub child_count : Nodes → ℕ
child_count nil = 0
child_count (cons n ns) = suc (child_count ns)

-- `jQuery(…).hasClass(className)`.
unfoldable pub has_class : Str → List Str → Bool
has_class name [] = false
has_class name (c ∷ cs) = same c name || has_class name cs

-- `jQuery(node).is("button, select, textarea")`.
unfoldable pub is_control : Str → Bool
is_control tag =
    same tag (units "button") || same tag (units "select") || same tag (units "textarea")

-- `jQuery.each(node.childNodes, …)`: the number of rounds is fixed before the first one, and
-- each round visits the node that stands at its index by then. What a visit puts in the place
-- of a node, but for its first node, stands in front of the nodes that are still to visit.
unfoldable pub each_child : (Node → Nodes) → ℕ → Nodes → Nodes
each_child visit zero ns = ns
each_child visit (suc rounds) nil = nil
each_child visit (suc rounds) (cons n ns) = elim (visit n) [
  | nil ↦ each_child visit rounds ns
  | cons first more ↦ cons first (each_child visit rounds (append_nodes more ns))
]

-- `String.prototype.toLowerCase` for characters that stay one unit: a map of the units.
module _ (fold : ℕ → ℕ) (term class_name : Str) where
  -- Where a text has the term, ignoring case.
  unfoldable pub position : Str → Option ℕ
  position val = index_of term (map fold val)

  -- The three nodes that stand in the place of a text that has the term at `pos`.
  unfoldable pub split_text : Str → ℕ → Nodes
  split_text val pos = cons (text (take pos val)) (
      cons
        (element (units "span") (class_name ∷ [])
          (cons (text (take (length term) (drop pos val))) nil))
        (cons (text (drop (pos + length term) val)) nil))

  -- The branch of a text node; `marked` says that its parent has the class.
  unfoldable pub highlight_text : Bool → Str → Nodes
  highlight_text marked val =
      if marked
      then cons (text val) nil
      else elim (position val) [ none ↦ cons (text val) nil | some pos ↦ split_text val pos ]

  -- `highlight(node)`: what stands in the node's place. Fuel bounds the depth.
  unfoldable pub highlight : ℕ → Bool → Node → Nodes
  highlight zero marked n = cons n nil
  highlight (suc depth) marked (text val) = highlight_text marked val
  highlight (suc depth) marked (element tag classes ns) =
      cons
        (element tag classes (
          if is_control tag
          then ns
          else each_child (highlight depth (has_class class_name classes)) (child_count ns) ns))
        nil
  highlight (suc depth) marked other = cons other nil

-- The number of nodes on the longest way down.
unfoldable mutual
  pub height : Node → ℕ
  height (text val) = 1
  height (element tag classes ns) = suc (height_below ns)
  height other = 1

  pub height_below : Nodes → ℕ
  height_below nil = 0
  height_below (cons n ns) = max (height n) (height_below ns)
