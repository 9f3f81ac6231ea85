-- ===== src/Doctools/IndexTable/Order.antt =====
-- Clicks on the buttons of the index (doctools.js, `initIndexTable`) in different orders.
use mathlib.Core.List.{foldl, Permᴰ}
use sbt_example.Common.{
  ℕ, zero, suc, ◌≡◌, refl, ap, sym, ◌∙◌, Str, none, some, List, [], ◌∷◌, get_elem?, arith, Option,
  Option-cases, inl, inr,
}
use sbt_example.Doctools.IndexTable.{
  Toggler, Row, Table, group_of, toggle_rows, flip_at, click_on, click,
}
use sbt_example.Doctools.IndexTable.Collapse.{flip_at-missing}

flip_at_comm : (i j : ℕ) (ts : List Toggler) → flip_at i (flip_at j ts) ≡ flip_at j (flip_at i ts)
unfolding flip_at
flip_at_comm i j [] = refl
flip_at_comm zero zero (t ∷ ts) = refl
flip_at_comm zero (suc j) (t ∷ ts) = refl
flip_at_comm (suc i) zero (t ∷ ts) = refl
flip_at_comm (suc i) (suc j) (t ∷ ts) = ap (λ l. t ∷ l) (flip_at_comm i j ts)

toggle_rows_comm :
    (g h : Str) (rows : List Row)
    → toggle_rows g (toggle_rows h rows) ≡ toggle_rows h (toggle_rows g rows)
unfolding toggle_rows
toggle_rows_comm g h [] = refl
toggle_rows_comm g h (r ∷ rows) = ground (arith, toggle_rows_comm g h rows)

-- The group of the button at a position, if there is one.
group_at : ℕ → List Toggler → Option Str
group_at i [] = none
group_at zero (t ∷ ts) = some (group_of t.id)
group_at (suc i) (t ∷ ts) = group_at i ts

group_at-flip_at : (i j : ℕ) (ts : List Toggler) → group_at i (flip_at j ts) ≡ group_at i ts
unfolding group_at flip_at
group_at-flip_at i j [] = refl
group_at-flip_at zero zero (t ∷ ts) = refl
group_at-flip_at zero (suc j) (t ∷ ts) = refl
group_at-flip_at (suc i) zero (t ∷ ts) = refl
group_at-flip_at (suc i) (suc j) (t ∷ ts) = group_at-flip_at i j ts

group_at-get :
    (i : ℕ) (ts : List Toggler) (t : Toggler)
    → get_elem? ts i ≡ some t
    → group_at i ts ≡ some (group_of t.id)
unfolding group_at
group_at-get i [] t e = absurd (ground arith)
group_at-get zero (u ∷ ts) t e =
    let same_one : u ≡ t = ground arith in ap (λ (v : Toggler). some (group_of v.id)) same_one
group_at-get (suc i) (u ∷ ts) t e = group_at-get i ts t e

group_at-missing : (i : ℕ) (ts : List Toggler) → get_elem? ts i ≡ none → group_at i ts ≡ none
unfolding group_at
group_at-missing i [] e = refl
group_at-missing zero (u ∷ ts) e = absurd (ground arith)
group_at-missing (suc i) (u ∷ ts) e = group_at-missing i ts e

toggle_group : Option Str → List Row → List Row
toggle_group none rows = rows
toggle_group (some g) rows = toggle_rows g rows

toggle_group_comm :
    (g h : Option Str) (rows : List Row)
    → toggle_group g (toggle_group h rows) ≡ toggle_group h (toggle_group g rows)
unfolding toggle_group
toggle_group_comm none h rows = refl
toggle_group_comm (some g) none rows = refl
toggle_group_comm (some g) (some h) rows = toggle_rows_comm g h rows

-- A click changes an icon and the rows of a group, neither of which moves a button.
click_parts :
    (i : ℕ) (table : Table)
    → click i table ≡ record {
      togglers = flip_at i table.togglers;
      rows = toggle_group (group_at i table.togglers) table.rows;
    }
unfolding click click_on toggle_group
click_parts i table = elim (Option-cases (get_elem? table.togglers i)) [
  | inl missing ↦
      rw
        (
          missing,
          click,
          group_at-missing i table.togglers missing,
          flip_at-missing i table.togglers missing,
        )
        refl
  | inr (t, found) ↦ rw (found, click, group_at-get i table.togglers t found) refl
]

click_comm : (i j : ℕ) (table : Table) → click i (click j table) ≡ click j (click i table)
click_comm i j table =
    rw (click_parts j table, click_parts i table)
      (click_parts i _
        ∙ rw
            (
              group_at-flip_at i j table.togglers,
              flip_at_comm i j table.togglers,
              toggle_group_comm (group_at i table.togglers) (group_at j table.togglers) table.rows,
              ← group_at-flip_at j i table.togglers,
            )
            (sym (click_parts j _)))

abbrev pub clicks : List ℕ → Table → Table
clicks is table = foldl (λ t i. click i t) table is

-- The index after a number of clicks does not depend on their order.
pub clicks-Perm : (is js : List ℕ) (table : Table) → Permᴰ is js → clicks is table ≡ clicks js table
clicks-Perm is js table Permᴰ.nil = refl
clicks-Perm (i ∷ is) (j ∷ js) table (Permᴰ.cons e p) =
    ap (λ k. clicks is (click k table)) e ∙ clicks-Perm is js (click j table) p
clicks-Perm (i ∷ j ∷ is) (i' ∷ j' ∷ js) table (Permᴰ.swap e f) =
    ap (λ t. clicks is t)
      (click_comm j i table
        ∙ (ap (λ k. click k (click j table)) e ∙ ap (λ k. click j' (click k table)) f))
clicks-Perm is js table (Permᴰ.trans {l₂ = ks} p q) =
    clicks-Perm is ks table p ∙ clicks-Perm ks js table q
