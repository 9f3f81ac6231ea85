-- ===== src/Doctools/IndexTable.antt =====
-- doctools.js: `initIndexTable`, the buttons that fold the groups of the index.
pub mod Icons
pub mod Groups
pub mod Collapse
pub mod Started
pub mod Order
mod Tests
use sbt_example.Common.{
  ℕ, zero, suc, none, some, get_elem?, ◌-◌, Str, units, same, Bool, true, false, not, ◌&&◌, List,
  [], ◌∷◌, ◌++◌, if◌then◌else◌, take, drop, length,
}
use sbt_example.Js.Text.{last_units}

-- An `img.toggler` and a row of the index with the number in its class `cg-…`.
pub record Toggler : Type 0 where
  pub id : Str
  pub src : Str
  pub display : Bool

pub record Row : Type 0 where
  pub group : Str
  pub visible : Bool

pub record Table : Type 0 where
  pub togglers : List Toggler
  pub rows : List Row

-- The new `src`: the last nine units are dropped behind a minus icon, eight otherwise.
unfoldable pub flip_src : Str → Str
flip_src src =
    if same (last_units 9 src) (units "minus.png")
    then take (length src - 9) src ++ units "plus.png"
    else take (length src - 8) src ++ units "minus.png"

-- `$(this).attr('id').substr(7)`.
unfoldable pub group_of : Str → Str
group_of id = drop 7 id

-- `$('tr.cg-' + idnum).toggle()`.
unfoldable pub toggle_rows : Str → List Row → List Row
toggle_rows group [] = []
toggle_rows group (r ∷ rows) =
    (if same r.group group then record r { visible = not r.visible } else r)
    ∷ toggle_rows group rows

-- The handler changes the icon that was clicked, at position `i`.
unfoldable pub flip_at : ℕ → List Toggler → List Toggler
flip_at i [] = []
flip_at zero (t ∷ ts) = record t { src = flip_src t.src } ∷ ts
flip_at (suc i) (t ∷ ts) = t ∷ flip_at i ts

unfoldable pub click_on : ℕ → Toggler → Table → Table
click_on i t table = record table {
  togglers = flip_at i table.togglers;
  rows = toggle_rows (group_of t.id) table.rows;
}

-- A click on the button at position `i`.
unfoldable pub click : ℕ → Table → Table
click i table = elim (get_elem? table.togglers i) [ none ↦ table | some t ↦ click_on i t table ]

-- `togglers.click()`: each button once, from position `i` on.
unfoldable pub click_all : ℕ → ℕ → Table → Table
click_all zero i table = table
click_all (suc n) i table = click_all n (suc i) (click i table)

-- `.css('display', '')`.
unfoldable pub show_togglers : List Toggler → List Toggler
show_togglers [] = []
show_togglers (t ∷ ts) = record t { display = true } ∷ show_togglers ts

unfoldable pub init_index_table : Bool → Table → Table
init_index_table collapse_index table =
    let shown = record table { togglers = show_togglers table.togglers } in
    if collapse_index then click_all (length table.togglers) 0 shown else shown
