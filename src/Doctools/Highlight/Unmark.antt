-- ===== src/Doctools/Highlight/Unmark.antt =====
-- doctools.js: `hideSearchWords`, on the nodes below an element. The link that it fades out is
-- part of Doctools/Search.
use mathlib.Core.Path.{ap₂}
use sbt_example.Common.{
  ℕ, ◌≡◌, refl, ◌∙◌, Str, units, same, Bool, false, ◌&&◌, List, [], ◌∷◌, ◌++◌, if◌then◌else◌, arith,
}
use sbt_example.Doctools.Highlight.{
  Node, text, element, other, Nodes, nil, cons, has_class, highlight,
}
use sbt_example.Doctools.Highlight.Content.{content, contents, highlight-contents}

-- `removeClass` of one class.
unfoldable pub remove_class : Str → List Str → List Str
remove_class name [] = []
remove_class name (c ∷ cs) = if same c name then remove_class name cs else c ∷ remove_class name cs

unfoldable pub unmark_classes : Str → Str → List Str → List Str
unmark_classes name tag classes =
    if same tag (units "span") && has_class name classes then remove_class name classes else classes

-- `$('span.' + name).removeClass(name)`.
unfoldable mutual
  pub unmark : Str → Node → Node
  unmark name (text val) = text val
  unmark name (element tag classes ns) =
      element tag (unmark_classes name tag classes) (unmark_all name ns)
  unmark name other = other

  pub unmark_all : Str → Nodes → Nodes
  unmark_all name nil = nil
  unmark_all name (cons n ns) = cons (unmark name n) (unmark_all name ns)

-- No span has the class.
unfoldable mutual
  pub IsUnmarked : Str → Node → Type 0
  IsUnmarked name (text val) = Unit
  IsUnmarked name (element tag classes ns) =
      ((same tag (units "span") && has_class name classes) ≡ false) × AreUnmarked name ns
  IsUnmarked name other = Unit

  pub AreUnmarked : Str → Nodes → Type 0
  AreUnmarked name nil = Unit
  AreUnmarked name (cons n ns) = IsUnmarked name n × AreUnmarked name ns

has_class-remove_class :
    (name : Str) (cs : List Str) → has_class name (remove_class name cs) ≡ false
unfolding has_class remove_class
has_class-remove_class name [] = refl
has_class-remove_class name (c ∷ cs) = ground (arith, has_class-remove_class name cs)

unmark_classes_lem :
    (name tag : Str) (cs : List Str)
    → (same tag (units "span") && has_class name (unmark_classes name tag cs)) ≡ false
unfolding unmark_classes
unmark_classes_lem name tag cs = ground (arith, has_class-remove_class name cs)

mutual
  unfolding unmark IsUnmarked

  pub unmark-IsUnmarked : (name : Str) (n : Node) → IsUnmarked name (unmark name n)
  unmark-IsUnmarked name (text val) = tt
  unmark-IsUnmarked name other = tt
  unmark-IsUnmarked name (element tag classes ns) =
      (unmark_classes_lem name tag classes, unmark_all-AreUnmarked name ns)

  pub unmark_all-AreUnmarked : (name : Str) (ns : Nodes) → AreUnmarked name (unmark_all name ns)
  unmark_all-AreUnmarked name nil = tt
  unmark_all-AreUnmarked name (cons n ns) =
      (unmark-IsUnmarked name n, unmark_all-AreUnmarked name ns)

mutual
  unfolding unmark content

  pub content-unmark : (name : Str) (n : Node) → content (unmark name n) ≡ content n
  content-unmark name (text val) = refl
  content-unmark name other = refl
  content-unmark name (element tag classes ns) = contents-unmark_all name ns

  pub contents-unmark_all : (name : Str) (ns : Nodes) → contents (unmark_all name ns) ≡ contents ns
  contents-unmark_all name nil = refl
  contents-unmark_all name (cons n ns) =
      ap₂ (λ s t. s ++ t) (content-unmark name n) (contents-unmark_all name ns)

-- Hiding the matches of a search leaves no span marked, and the text is what it was before the
-- search.
pub unmark_all-highlight :
    (fold : ℕ → ℕ) (term name : Str) (depth : ℕ) (marked : Bool) (n : Node)
    → let ns = unmark_all name (highlight fold term name depth marked n) in
      AreUnmarked name ns × (contents ns ≡ content n)
unmark_all-highlight fold term name depth marked n = (
  unmark_all-AreUnmarked name _,
  contents-unmark_all name _ ∙ highlight-contents fold term name depth marked n,
)
