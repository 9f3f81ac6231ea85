-- ===== src/Doctools/IndexTable/Collapse.antt =====
-- The index when `initIndexTable` (doctools.js) is done.
use mathlib.Core.Path.{subst}
use sbt_example.Common.{
  ℕ, zero, suc, ◌≡◌, ◌≢◌, refl, ap, sym, ◌∙◌, inl, inr, Str, units, Bool, true, false, not, none,
  List, [], ◌∷◌, ◌++◌, get_elem?, All, All-imp, arith, Option-cases, length,
}
use sbt_example.Doctools.IndexTable.{
  Toggler, Row, Table, flip_src, group_of, flip_at, click_on, click, click_all, show_togglers,
  init_index_table,
}
use sbt_example.Doctools.IndexTable.Groups.{
  shows_minus, shows_minus-minus, shows_minus-flip_src, AreShown, IsInStep, AreDistinct,
  click-IsInStep,
}

flip_at-All :
    (P : Toggler → Type 0)
    → ((t : Toggler) → P t → P (record t { src = flip_src t.src }))
    → (i : ℕ) (ts : List Toggler) → All P ts
    → All P (flip_at i ts)
unfolding flip_at
flip_at-All P keeps i [] h = tt
flip_at-All P keeps zero (t ∷ ts) (h, hs) = (keeps t h, hs)
flip_at-All P keeps (suc i) (t ∷ ts) (h, hs) = (h, flip_at-All P keeps i ts hs)

pub flip_at-AreDistinct : (i : ℕ) (ts : List Toggler) → AreDistinct ts → AreDistinct (flip_at i ts)
unfolding flip_at
flip_at-AreDistinct i [] h = tt
flip_at-AreDistinct zero (t ∷ ts) h = h
flip_at-AreDistinct (suc i) (t ∷ ts) (h, hs) = (
  flip_at-All (λ u. group_of u.id ≢ group_of t.id) (λ u p. p) i ts h,
  flip_at-AreDistinct i ts hs,
)

pub flip_at-missing : (i : ℕ) (ts : List Toggler) → get_elem? ts i ≡ none → flip_at i ts ≡ ts
unfolding flip_at
flip_at-missing i [] h = refl
flip_at-missing zero (t ∷ ts) h = absurd (ground arith)
flip_at-missing (suc i) (t ∷ ts) h = ap (λ l. t ∷ l) (flip_at-missing i ts h)

pub togglers-click : (i : ℕ) (table : Table) → (click i table).togglers ≡ flip_at i table.togglers
unfolding click click_on
togglers-click i table = elim (Option-cases (get_elem? table.togglers i)) [
  | inl missing ↦ rw (missing, click) (sym (flip_at-missing i table.togglers missing))
  | inr (t, found) ↦ rw (found, click) refl
]

-- The icons that a number of clicks in a row flip.
abbrev flip_range : ℕ → ℕ → List Toggler → List Toggler
flip_range zero i ts = ts
flip_range (suc n) i ts = flip_range n (suc i) (flip_at i ts)

flip_range_behind :
    (n i : ℕ) (t : Toggler) (ts : List Toggler)
    → flip_range n (suc i) (t ∷ ts) ≡ t ∷ flip_range n i ts
unfolding flip_at
flip_range_behind zero i t ts = refl
flip_range_behind (suc n) i t ts = flip_range_behind n (suc i) t (flip_at i ts)

abbrev flipped : Toggler → Toggler
flipped t = record t { src = flip_src t.src }

flip_range-All :
    (P Q : Toggler → Type 0)
    → ((t : Toggler) → P t → Q (flipped t))
    → (ts : List Toggler) → All P ts
    → All Q (flip_range (length ts) 0 ts)
unfolding flip_at
flip_range-All P Q step [] h = tt
flip_range-All P Q step (t ∷ ts) (h, hs) =
    subst (λ l. All Q l) (sym (flip_range_behind (length ts) 0 (flipped t) ts))
      (step t h, flip_range-All P Q step ts hs)

pub click_all-IsInStep :
    (n i : ℕ) (table : Table)
    → AreDistinct table.togglers
    → All (IsInStep table.rows) table.togglers
    → ((click_all n i table).togglers ≡ flip_range n i table.togglers)
      × All (IsInStep (click_all n i table).rows) (click_all n i table).togglers
unfolding click_all
click_all-IsInStep zero i table d h = (refl, h)
click_all-IsInStep (suc n) i table d h =
    let e = togglers-click i table in
    let d' = subst AreDistinct (sym e) (flip_at-AreDistinct i table.togglers d) in
    let (later, kept) =
      click_all-IsInStep n (suc i) (click i table) d' (click-IsInStep i table d h) in
    (later ∙ ap (flip_range n (suc i)) e, kept)

pub show_togglers-All :
    (P Q : Toggler → Type 0)
    → ((t : Toggler) → P t → Q (record t { display = true }))
    → (ts : List Toggler) → All P ts
    → All Q (show_togglers ts)
unfolding show_togglers
show_togglers-All P Q step [] h = tt
show_togglers-All P Q step (t ∷ ts) (h, hs) = (step t h, show_togglers-All P Q step ts hs)

pub show_togglers-AreDistinct :
    (ts : List Toggler) → AreDistinct ts → AreDistinct (show_togglers ts)
unfolding show_togglers
show_togglers-AreDistinct [] h = tt
show_togglers-AreDistinct (t ∷ ts) (h, hs) = (
  show_togglers-All (λ u. group_of u.id ≢ group_of t.id) (λ u. group_of u.id ≢ group_of t.id)
      (λ u p. p) ts h,
  show_togglers-AreDistinct ts hs,
)

pub length-show_togglers : (ts : List Toggler) → length (show_togglers ts) ≡ length ts
unfolding show_togglers
length-show_togglers [] = refl
length-show_togglers (t ∷ ts) = ap suc (length-show_togglers ts)

All-both :
    (P Q : Toggler → Type 0) (ts : List Toggler) → All P ts → All Q ts → All (λ t. P t × Q t) ts
All-both P Q [] h k = tt
All-both P Q (t ∷ ts) (h, hs) (k, ks) = ((h, k), All-both P Q ts hs ks)

abbrev pub HasMinus : Toggler → Type 0
HasMinus t = (p : Str) × (t.src ≡ p ++ units "minus.png")

-- A button as the page has it: with the minus icon, over visible rows.
abbrev pub IsUnfolded : List Row → Toggler → Type 0
IsUnfolded rows t = HasMinus t × AreShown (group_of t.id) true rows

-- A button that is displayed and folded in or not, with the rows of its group.
abbrev pub IsSetUp : Bool → List Row → Toggler → Type 0
IsSetUp collapsed rows t =
    (t.display ≡ true)
    × (shows_minus t.src ≡ not collapsed)
    × AreShown (group_of t.id) (not collapsed) rows

unfolded-minus : (t : Toggler) → HasMinus t → shows_minus t.src ≡ true
unfolded-minus t (p, e) = ap shows_minus e ∙ shows_minus-minus p

flipped-minus :
    (t : Toggler)
    → (t.display ≡ true) × HasMinus t
    → (t.display ≡ true) × (shows_minus (flip_src t.src) ≡ false)
flipped-minus t (d, (p, e)) =
    (d, shows_minus-flip_src t.src (inl (p, e)) ∙ ap not (unfolded-minus t (p, e)))

pub unfolded-IsInStep : (rows : List Row) (t : Toggler) → IsUnfolded rows t → IsInStep rows t
unfolded-IsInStep rows t ((p, e), shown) =
    (inl (p, e), subst (λ b. AreShown (group_of t.id) b rows) (sym (unfolded-minus t (p, e))) shown)

collapsed-IsSetUp :
    (rows : List Row) (t : Toggler)
    → ((t.display ≡ true) × (shows_minus t.src ≡ false)) × IsInStep rows t
    → IsSetUp true rows t
collapsed-IsSetUp rows t ((d, plus), (icon, shown)) =
    (d, plus, subst (λ b. AreShown (group_of t.id) b rows) plus shown)

-- On a page whose buttons have distinct numbers and the minus icon, over visible rows, every
-- button is displayed when `initIndexTable` is done: with the plus icon over hidden rows, if the
-- index is to be collapsed, and with the minus icon over visible rows otherwise.
pub init_index_table-IsSetUp :
    (collapse_index : Bool) (table : Table)
    → AreDistinct table.togglers
    → All (IsUnfolded table.rows) table.togglers
    → All
        (IsSetUp collapse_index (init_index_table collapse_index table).rows)
        (init_index_table collapse_index table).togglers
unfolding init_index_table
init_index_table-IsSetUp false table d h =
    show_togglers-All (IsUnfolded table.rows) (IsSetUp false table.rows)
      (λ t (minus, shown). (refl, unfolded-minus t minus, shown)) table.togglers h
init_index_table-IsSetUp true table d h =
    let ts = show_togglers table.togglers in
    let shown = record table { togglers = ts } in
    let start =
      show_togglers-All (IsUnfolded table.rows) (λ t. (t.display ≡ true) × HasMinus t)
        (λ t (minus, _). (refl, minus)) table.togglers h in
    let in_step =
      show_togglers-All (IsUnfolded table.rows) (IsInStep table.rows)
        (λ t u. unfolded-IsInStep table.rows t u) table.togglers h in
    let (e, kept) =
      click_all-IsInStep (length table.togglers) 0 shown
        (show_togglers-AreDistinct table.togglers d) in_step in
    let icons =
      flip_range-All (λ t. (t.display ≡ true) × HasMinus t)
        (λ t. (t.display ≡ true) × (shows_minus t.src ≡ false)) flipped-minus ts start in
    let after = click_all (length table.togglers) 0 shown in
    let icons' =
      subst (λ l. All (λ t. (t.display ≡ true) × (shows_minus t.src ≡ false)) l)
        (ap (λ n. flip_range n 0 ts) (length-show_togglers table.togglers) ∙ sym e) icons in
    All-imp (λ t. ((t.display ≡ true) × (shows_minus t.src ≡ false)) × IsInStep after.rows t)
      (IsSetUp true after.rows) (collapsed-IsSetUp after.rows) after.togglers
      (All-both _ _ after.togglers icons' kept)
