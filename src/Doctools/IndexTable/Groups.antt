-- ===== src/Doctools/IndexTable/Groups.antt =====
-- The buttons of the index and the rows of their groups (doctools.js, `initIndexTable`).
use mathlib.Core.Path.{subst}
use sbt_example.Common.{
  ℕ, zero, suc, ◌≡◌, ◌≢◌, refl, ap, sym, ◌∙◌, inl, inr, Str, units, same, same_iff, same_refl, Bool,
  true, not, none, some, List, [], ◌∷◌, ◌++◌, get_elem?, All, arith, Option-cases,
}
use sbt_example.Js.Text.{last_units}
use sbt_example.Doctools.IndexTable.{
  Toggler, Row, Table, flip_src, group_of, toggle_rows, flip_at, click_on, click,
}
use sbt_example.Doctools.IndexTable.Icons.{
  IsIcon, last_units-append, plus_is_no_minus, flip_src-minus, flip_src-plus, flip_src_twice,
}

abbrev pub shows_minus : Str → Bool
shows_minus src = same (last_units 9 src) (units "minus.png")

pub shows_minus-minus : (p : Str) → shows_minus (p ++ units "minus.png") ≡ true
shows_minus-minus p =
    rw (last_units-append 9 p (units "minus.png") refl) (same_refl (units "minus.png"))

pub shows_minus-flip_src :
    (src : Str) → IsIcon src → shows_minus (flip_src src) ≡ not (shows_minus src)
shows_minus-flip_src src (inl (p, e)) =
    rw (e, flip_src-minus p) (plus_is_no_minus p ∙ sym (ap not (shows_minus-minus p)))
shows_minus-flip_src src (inr (p, e)) =
    rw (e, flip_src-plus p) (shows_minus-minus p ∙ sym (ap not (plus_is_no_minus p)))

flip_src-IsIcon : (src : Str) → IsIcon src → IsIcon (flip_src src)
flip_src-IsIcon src (inl (p, e)) = inr (p, ap flip_src e ∙ flip_src-minus p)
flip_src-IsIcon src (inr (p, e)) = inl (p, ap flip_src e ∙ flip_src-plus p)

-- The rows of a group are all visible or all hidden.
abbrev pub AreShown : Str → Bool → List Row → Type 0
AreShown group b = All (λ r. r.group ≡ group → r.visible ≡ b)

abbrev pub IsInStep : List Row → Toggler → Type 0
IsInStep rows t = IsIcon t.src × AreShown (group_of t.id) (shows_minus t.src) rows

-- No two buttons have the same group.
abbrev pub AreDistinct : List Toggler → Type 0
AreDistinct [] = Unit
AreDistinct (t ∷ ts) = All (λ u. group_of u.id ≢ group_of t.id) ts × AreDistinct ts

toggle_rows-AreShown_self :
    (g : Str) (b : Bool) (rows : List Row)
    → AreShown g b rows
    → AreShown g (not b) (toggle_rows g rows)
unfolding toggle_rows
toggle_rows-AreShown_self g b [] h = tt
toggle_rows-AreShown_self g b (r ∷ rows) (h, hs) =
    ((λ e. ground (arith, same_iff r.group g)), toggle_rows-AreShown_self g b rows hs)

toggle_rows-AreShown_other :
    (g k : Str) (b : Bool) (rows : List Row)
    → g ≢ k
    → AreShown k b rows
    → AreShown k b (toggle_rows g rows)
unfolding toggle_rows
toggle_rows-AreShown_other g k b [] n h = tt
toggle_rows-AreShown_other g k b (r ∷ rows) n (h, hs) =
    ((λ e. ground (arith, same_iff r.group g)), toggle_rows-AreShown_other g k b rows n hs)

others-IsInStep :
    (g : Str) (rows : List Row) (ts : List Toggler)
    → All (λ u. group_of u.id ≢ g) ts
    → All (IsInStep rows) ts
    → All (IsInStep (toggle_rows g rows)) ts
others-IsInStep g rows [] n h = tt
others-IsInStep g rows (t ∷ ts) (n, ns) ((icon, shown), hs) = (
  (icon, toggle_rows-AreShown_other g (group_of t.id) _ rows (λ e. n (sym e)) shown),
  others-IsInStep g rows ts ns hs,
)

All-get {κ} :
    (P : Toggler → Type κ) (ts : List Toggler) (i : ℕ) (t : Toggler)
    → All P ts
    → get_elem? ts i ≡ some t
    → P t
All-get P [] i t h e = absurd (ground arith)
All-get P (u ∷ ts) zero t (h, hs) e = let same_one : u ≡ t = ground arith in subst P same_one h
All-get P (u ∷ ts) (suc i) t (h, hs) e = All-get P ts i t hs e

flip_at-IsInStep :
    (i : ℕ) (ts : List Toggler) (t : Toggler) (rows : List Row)
    → AreDistinct ts
    → get_elem? ts i ≡ some t
    → All (IsInStep rows) ts
    → All (IsInStep (toggle_rows (group_of t.id) rows)) (flip_at i ts)
unfolding flip_at
flip_at-IsInStep i [] t rows d e h = tt
flip_at-IsInStep zero (u ∷ ts) t rows (d, ds) e ((icon, shown), hs) =
    let same_one : u ≡ t = ground arith in
    subst
      (λ v.
        All (IsInStep (toggle_rows (group_of v.id) rows)) (record u { src = flip_src u.src } ∷ ts))
      same_one
      (
        (
          flip_src-IsIcon u.src icon,
          rw (shows_minus-flip_src u.src icon)
              (toggle_rows-AreShown_self (group_of u.id) _ rows shown),
        ),
        others-IsInStep (group_of u.id) rows ts d hs,
      )
flip_at-IsInStep (suc i) (u ∷ ts) t rows (d, ds) e ((icon, shown), hs) = (
  (
    icon,
    toggle_rows-AreShown_other (group_of t.id) (group_of u.id) _ rows (All-get _ ts i t d e) shown,
  ),
  flip_at-IsInStep i ts t rows ds e hs,
)

-- In a table whose buttons have distinct numbers and in which every button is in step with the
-- rows of its group, every button is in step with its rows after a click, whichever button it is
-- on.
pub click-IsInStep :
    (i : ℕ) (table : Table)
    → AreDistinct table.togglers
    → All (IsInStep table.rows) table.togglers
    → All (IsInStep (click i table).rows) (click i table).togglers
unfolding click click_on
click-IsInStep i table d h = elim (Option-cases (get_elem? table.togglers i)) [
  | inl missing ↦ rw (missing, click) h
  | inr (t, found) ↦ rw (found, click) (flip_at-IsInStep i table.togglers t table.rows d found h)
]

toggle_rows_twice : (g : Str) (rows : List Row) → toggle_rows g (toggle_rows g rows) ≡ rows
unfolding toggle_rows
toggle_rows_twice g [] = refl
toggle_rows_twice g (r ∷ rows) = ground (arith, toggle_rows_twice g rows)

flip_at_twice :
    (i : ℕ) (ts : List Toggler) → All (λ t. IsIcon t.src) ts → flip_at i (flip_at i ts) ≡ ts
unfolding flip_at
flip_at_twice i [] h = refl
flip_at_twice zero (t ∷ ts) (h, hs) =
    ap (λ src. record t { src = src } ∷ ts) (flip_src_twice t.src h)
flip_at_twice (suc i) (t ∷ ts) (h, hs) = ap (λ l. t ∷ l) (flip_at_twice i ts hs)

get_elem?-flip_at :
    (i : ℕ) (ts : List Toggler) (t : Toggler)
    → get_elem? ts i ≡ some t
    → get_elem? (flip_at i ts) i ≡ some (record t { src = flip_src t.src })
unfolding flip_at
get_elem?-flip_at i [] t e = absurd (ground arith)
get_elem?-flip_at zero (u ∷ ts) t e =
    let same_one : u ≡ t = ground arith in
    ap (λ (v : Toggler). some (record v { src = flip_src v.src })) same_one
get_elem?-flip_at (suc i) (u ∷ ts) t e = get_elem?-flip_at i ts t e

click_found :
    (i : ℕ) (table : Table) (t : Toggler)
    → get_elem? table.togglers i ≡ some t
    → click i table ≡ click_on i t table
unfolding click
click_found i table t e = rw (e, click)

click_missing : (i : ℕ) (table : Table) → get_elem? table.togglers i ≡ none → click i table ≡ table
unfolding click
click_missing i table e = rw (e, click)

-- Clicking a button twice gives the table back, where all icons are plus or minus icons.
pub click_twice :
    (i : ℕ) (table : Table)
    → All (λ t. IsIcon t.src) table.togglers
    → click i (click i table) ≡ table
click_twice i table h = elim (Option-cases (get_elem? table.togglers i)) [
  | inl missing ↦ ap (click i) (click_missing i table missing) ∙ click_missing i table missing
  | inr (t, found) ↦
      ap (click i) (click_found i table t found)
      ∙ click_found i (click_on i t table) (record t { src = flip_src t.src })
          (unfold click_on in get_elem?-flip_at i table.togglers t found)
      ∙ unfold click_on in
        (λ j. record table {
          togglers = flip_at_twice i table.togglers h j;
          rows = toggle_rows_twice (group_of t.id) table.rows j;
        })
]
