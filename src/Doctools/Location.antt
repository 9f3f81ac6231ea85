-- ===== src/Doctools/Location.antt =====
-- doctools.js: `makeURL` and `getCurrentURL`, and the helper `jQuery.contains`.
pub mod Laws
mod Tests
use sbt_example.Common.{
  ℕ, suc, ◌+◌, ◌-◌, Str, units, same, Bool, true, false, Option, none, some, List, [], ◌∷◌, ◌++◌,
  ◌==◌, if◌then◌else◌, length,
}
use sbt_example.Js.Text.{split, join, last_index_of, substring}
use mathlib.Core.List.{foldl}

-- `DOCUMENTATION_OPTIONS.URL_ROOT` is the first argument of both.
unfoldable pub make_url : Str → Str → Str
make_url url_root relative_url = url_root ++ (b'/' ∷ relative_url)

-- `parts.pop()`.
unfoldable pub pop : List Str → List Str
pop [] = []
pop (p ∷ []) = []
pop (p ∷ q ∷ ps) = p ∷ pop (q ∷ ps)

-- One round over the parts of the root.
unfoldable pub climb : List Str → Str → List Str
climb parts part = if same part (units "..") then pop parts else parts

-- `url.lastIndexOf('/') + 1`.
unfoldable pub after_last_slash : Str → ℕ
after_last_slash url = elim (last_index_of b'/' url) [ none ↦ 0 | some i ↦ i + 1 ]

unfoldable pub get_current_url : Str → Str → Str
get_current_url url_root path =
    let url = join b'/' (foldl climb (split b'/' path) (split b'/' url_root)) in
    substring (after_last_slash url) (length path - 1) path

-- `jQuery.contains(arr, item)`, over texts.
unfoldable pub contains : List Str → Str → Bool
contains [] item = false
contains (a ∷ arr) item = if same a item then true else contains arr item
