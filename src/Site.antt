-- ===== src/Site.antt =====
-- akka_doc/_static/contentsFix.js and highlightCode.js: what the pages do with their table of
-- contents and their code when they are ready.
pub mod Gaps
pub mod Contents
pub mod Code
pub mod Scroll
pub mod Reading
mod Tests
use sbt_example.Common.{Str, units, Bool, true, false, ◌||◌, List, [], ◌∷◌, ◌++◌, if◌then◌else◌}
use sbt_example.Toc.Outline.{Ul, empty, leaf, branch, wrapper}
use sbt_example.Doctools.Query.{listed}

-- `elem.children().length == 0`.
unfoldable pub has_no_items : Ul → Bool
has_no_items empty = true
has_no_items _ = false

-- Whether a list inside one of the items has no items.
unfoldable pub holds_empty : Ul → Bool
holds_empty empty = false
holds_empty (leaf e r) = holds_empty r
holds_empty (branch e s r) = has_no_items s || (holds_empty s || holds_empty r)
holds_empty (wrapper s r) = has_no_items s || (holds_empty s || holds_empty r)

-- Whether the loop over `$("#toc ul")` hides the title: it does so at any list without items.
unfoldable pub hides_title : Ul → Bool
hides_title toc = has_no_items toc || holds_empty toc

-- One class of `addClass`, which is not added twice.
unfoldable pub add_class : Str → List Str → List Str
add_class k classes = if listed k classes then classes else classes ++ k ∷ []

-- The classes of a `pre` element after the loop's round.
unfoldable pub mark_code : List Str → List Str
mark_code classes =
    if listed (units "prettyprint") classes
    then classes
    else add_class (units "linenums")
        (add_class (units "lang-scala") (add_class (units "prettyprint") classes))

-- The loop over the `pre` elements, with the variable `a`.
unfoldable pub mark_codes : List (List Str) → Bool → List (List Str) × Bool
mark_codes [] a = ([], a)
mark_codes (c ∷ cs) a =
    let (marked, called) = mark_codes cs (if listed (units "prettyprint") c then a else true) in
    (mark_code c ∷ marked, called)

-- The elements after the script, and whether it calls `prettyPrint`.
unfoldable pub highlight_code : Bool → List (List Str) → List (List Str) × Bool
highlight_code disabled cs = if disabled then (cs, false) else mark_codes cs false
