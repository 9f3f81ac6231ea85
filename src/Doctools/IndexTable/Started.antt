-- ===== src/Doctools/IndexTable/Started.antt =====
-- The buttons of the index after `initIndexTable` (doctools.js), up to further clicks.
use mathlib.Core.Path.{subst}
use sbt_example.Common.{ℕ, zero, suc, sym, Bool, if_both, All, length}
use sbt_example.Doctools.IndexTable.{Table, click, click_all, show_togglers, init_index_table}
use sbt_example.Doctools.IndexTable.Groups.{IsInStep, AreDistinct, click-IsInStep}
use sbt_example.Doctools.IndexTable.Collapse.{
  IsUnfolded, flip_at-AreDistinct, togglers-click, show_togglers-All, show_togglers-AreDistinct,
  unfolded-IsInStep,
}

-- The buttons have distinct numbers and are in step with their rows.
abbrev pub IsOrderly : Table → Type 0
IsOrderly table = AreDistinct table.togglers × All (IsInStep table.rows) table.togglers

click-AreDistinct :
    (i : ℕ) (table : Table) → AreDistinct table.togglers → AreDistinct (click i table).togglers
click-AreDistinct i table d =
    subst AreDistinct (sym (togglers-click i table)) (flip_at-AreDistinct i table.togglers d)

pub click-IsOrderly : (i : ℕ) (table : Table) → IsOrderly table → IsOrderly (click i table)
click-IsOrderly i table (d, h) = (click-AreDistinct i table d, click-IsInStep i table d h)

click_all-IsOrderly : (n i : ℕ) (table : Table) → IsOrderly table → IsOrderly (click_all n i table)
unfolding click_all
click_all-IsOrderly zero i table h = h
click_all-IsOrderly (suc n) i table h =
    click_all-IsOrderly n (suc i) (click i table) (click-IsOrderly i table h)

pub init_index_table-IsOrderly :
    (collapse_index : Bool) (table : Table)
    → AreDistinct table.togglers
    → All (IsUnfolded table.rows) table.togglers
    → IsOrderly (init_index_table collapse_index table)
unfolding init_index_table
init_index_table-IsOrderly collapse_index table d h =
    let shown = record table { togglers = show_togglers table.togglers } in
    let start : IsOrderly shown = (
      show_togglers-AreDistinct table.togglers d,
      show_togglers-All (IsUnfolded table.rows) (IsInStep table.rows)
          (λ t u. unfolded-IsInStep table.rows t u) table.togglers h,
    ) in
    if_both IsOrderly collapse_index (click_all (length table.togglers) 0 shown) shown
      (click_all-IsOrderly (length table.togglers) 0 shown start) start
