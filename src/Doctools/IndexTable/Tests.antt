-- ===== src/Doctools/IndexTable/Tests.antt =====
-- A small index with its buttons (doctools.js, `initIndexTable`).
use mathlib.Core.List.{Permᴰ}
use sbt_example.Common.{ℕ, ◌≡◌, refl, inl, Str, units, same, Bool, true, false, [], ◌∷◌, All, arith}
use sbt_example.Doctools.IndexTable.{
  Toggler, Table, flip_src, group_of, toggle_rows, flip_at, click_on, click, click_all,
  show_togglers, init_index_table,
}
use sbt_example.Doctools.IndexTable.Collapse.{IsUnfolded, IsSetUp, init_index_table-IsSetUp}
use sbt_example.Doctools.IndexTable.Order.{clicks, clicks-Perm}
use sbt_example.Doctools.IndexTable.Icons.{IsIcon}
use sbt_example.Doctools.IndexTable.Groups.{IsInStep, AreDistinct}

abbrev toggler : Str → Toggler
toggler id = record { id = id; src = units "_static/minus.png"; display = false }

abbrev index : Table
index = record {
  togglers = toggler (units "toggle-1") ∷ toggler (units "toggle-2") ∷ [];
  rows =
      record { group = units "1"; visible = true }
      ∷ record { group = units "2"; visible = true }
      ∷ record { group = units "1"; visible = true }
      ∷ [];
}

run : Bool → Table → Table
unfolding init_index_table show_togglers click_all click click_on flip_at flip_src toggle_rows
    group_of same
run = init_index_table

collapsed : run true index ≡ record {
  togglers =
      record { id = units "toggle-1"; src = units "_static/plus.png"; display = true }
      ∷ record { id = units "toggle-2"; src = units "_static/plus.png"; display = true }
      ∷ [];
  rows =
      record { group = units "1"; visible = false }
      ∷ record { group = units "2"; visible = false }
      ∷ record { group = units "1"; visible = false }
      ∷ [];
}
unfolding run
collapsed = refl

index_distinct : AreDistinct index.togglers
unfolding group_of
index_distinct = (((λ e. ground arith), tt), (tt, tt))

icon : IsIcon (units "_static/minus.png")
icon = inl (units "_static/", refl)

index-IsInStep : All (IsInStep index.rows) index.togglers
unfolding group_of same
index-IsInStep = (
  (icon, ((λ e. refl), ((λ e. refl), ((λ e. refl), tt)))),
  ((icon, ((λ e. refl), ((λ e. refl), ((λ e. refl), tt)))), tt),
)

index-IsUnfolded : All (IsUnfolded index.rows) index.togglers
unfolding group_of
index-IsUnfolded = (
  ((units "_static/", refl), ((λ e. refl), ((λ e. refl), ((λ e. refl), tt)))),
  (((units "_static/", refl), ((λ e. refl), ((λ e. refl), ((λ e. refl), tt)))), tt),
)

init_index_table-IsSetUp_example :
    All (IsSetUp true (init_index_table true index).rows) (init_index_table true index).togglers
init_index_table-IsSetUp_example =
    init_index_table-IsSetUp true index index_distinct index-IsUnfolded

swapped : Permᴰ {A = ℕ} (0 ∷ 1 ∷ 1 ∷ []) (1 ∷ 0 ∷ 1 ∷ [])
swapped = Permᴰ.swap refl refl

clicks-Perm_example : clicks (0 ∷ 1 ∷ 1 ∷ []) index ≡ clicks (1 ∷ 0 ∷ 1 ∷ []) index
clicks-Perm_example = clicks-Perm (0 ∷ 1 ∷ 1 ∷ []) (1 ∷ 0 ∷ 1 ∷ []) index swapped
