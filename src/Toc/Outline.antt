-- ===== src/Toc/Outline.antt =====
-- toc.js: the list that is built, `checkContainer` and `appendToTOC`.
pub mod Depths
use sbt_example.Common.{
  ℕ, zero, suc, ◌-◌, Str, [], ◌∷◌, Bool, true, false, ◌&&◌, ◌==◌, if◌then◌else◌,
}

-- What a list item shows: a link to an anchor with its text, or the bare text. Texts hold no
-- markup.
pub data Entry : Type 0 where
  link : Str → Str → Entry
  plain : Str → Entry

-- A `ul` element by its items: one with no list inside, one with a list behind its entry, and the
-- bare item without a bullet that only carries a list.
pub data Ul : Type 0 where
  empty : Ul
  leaf : Entry → Ul → Ul
  branch : Entry → Ul → Ul → Ul
  wrapper : Ul → Ul → Ul

-- What the last element below a list is (`toc.find(':last')`).
pub data Last : Type 0 where
  nothing a_list no_list : Last

-- The last element below an item that carries a list.
abbrev pub below : Last → Last
below nothing = a_list
below a_list = a_list
below no_list = no_list

unfoldable pub last_below : Ul → Last
last_below empty = nothing
last_below (leaf e empty) = no_list
last_below (branch e s empty) = below (last_below s)
last_below (wrapper s empty) = below (last_below s)
last_below (leaf e r) = last_below r
last_below (branch e s r) = last_below r
last_below (wrapper s r) = last_below r

-- `toc.find('li:last').append('<ul></ul>')`, which is called only where that item has no list.
unfoldable pub append_list : Ul → Ul
append_list empty = empty
append_list (leaf e empty) = branch e empty empty
append_list (branch e s empty) = branch e (append_list s) empty
append_list (wrapper s empty) = wrapper (append_list s) empty
append_list (leaf e r) = leaf e (append_list r)
append_list (branch e s r) = branch e s (append_list r)
append_list (wrapper s r) = wrapper s (append_list r)

unfoldable pub is_no_list : Last → Bool
is_no_list no_list = true
is_no_list _ = false

unfoldable pub check_container : ℕ → Ul → Ul
check_container header toc =
    if header == 0 && is_no_list (last_below toc) then append_list toc else toc

-- `parent.append('<li>…</li>')`.
unfoldable pub append_leaf : Entry → Ul → Ul
append_leaf e empty = leaf e empty
append_leaf e (leaf x r) = leaf x (append_leaf e r)
append_leaf e (branch x s r) = branch x s (append_leaf e r)
append_leaf e (wrapper s r) = wrapper s (append_leaf e r)

-- `if (parent.find('> li:last > ul').length === 0)` a bare item with an empty list is appended.
unfoldable pub ensure_list : Ul → Ul
ensure_list empty = wrapper empty empty
ensure_list (leaf e empty) = leaf e (wrapper empty empty)
ensure_list (branch e s empty) = branch e s empty
ensure_list (wrapper s empty) = wrapper s empty
ensure_list (leaf e r) = leaf e (ensure_list r)
ensure_list (branch e s r) = branch e s (ensure_list r)
ensure_list (wrapper s r) = wrapper s (ensure_list r)

-- A change inside `parent.find('> li:last > ul:first')`; none where there is no such list.
unfoldable pub in_last : (Ul → Ul) → Ul → Ul
in_last f empty = empty
in_last f (leaf e empty) = leaf e empty
in_last f (branch e s empty) = branch e (f s) empty
in_last f (wrapper s empty) = wrapper (f s) empty
in_last f (leaf e r) = leaf e (in_last f r)
in_last f (branch e s r) = branch e s (in_last f r)
in_last f (wrapper s r) = wrapper s (in_last f r)

-- The loop of `appendToTOC`, by the rounds that are left.
unfoldable pub descend : ℕ → Entry → Ul → Ul
descend zero e parent = append_leaf e parent
descend (suc n) e parent = in_last (descend n e) (ensure_list parent)

-- The two shapes of the appended item: `id === ''` or not.
unfoldable pub entry_of : Str → Str → Entry
entry_of [] text = plain text
entry_of (c ∷ id) text = link (c ∷ id) text

-- The rounds run from 1 to below `index`.
unfoldable pub append_to_toc : Ul → ℕ → Entry → Ul
append_to_toc toc index e = descend (index - 1) e toc
