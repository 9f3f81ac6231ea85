-- ===== src/Doctools/Query.antt =====
-- doctools.js: `urldecode`, `urlencode` and `getQueryParameters`.
pub mod Grouping
pub mod Totality
pub mod Order
pub mod Shape
pub mod RoundTrip
mod Tests
use sbt_example.Common.{
  ◌+◌, Str, units, same, Bool, true, false, ◌||◌, Option, none, some, List, [], ◌∷◌, ◌++◌, map,
  ◌==◌, if◌then◌else◌, drop, take, get_elem?, Outcome, ok, throw, type_error, ◌>>=◌,
}
use sbt_example.Js.Text.{index_of, split}
use sbt_example.Js.Uri.{encode_uri_component, decode_uri_component}

-- `.replace(/\+/g, ' ')`.
abbrev pub unplus : Str → Str
unplus = map (λ c. if c == b'+' then b' ' else c)

unfoldable pub urldecode : Str → Outcome Str
urldecode x = do s ← decode_uri_component x; ok (unplus s)

unfoldable pub urlencode : Str → Outcome Str
urlencode = encode_uri_component

-- The names that every object inherits from `Object.prototype`; `in` finds them too.
abbrev pub prototype_names : List Str
prototype_names =
    units "constructor"
    ∷ units "toString"
    ∷ units "toLocaleString"
    ∷ units "valueOf"
    ∷ units "hasOwnProperty"
    ∷ units "isPrototypeOf"
    ∷ units "propertyIsEnumerable"
    ∷ units "__defineGetter__"
    ∷ units "__defineSetter__"
    ∷ units "__lookupGetter__"
    ∷ units "__lookupSetter__"
    ∷ units "__proto__"
    ∷ []

unfoldable pub listed : Str → List Str → Bool
listed k [] = false
listed k (n ∷ ns) = same k n || listed k ns

unfoldable pub inherits : Str → Bool
unfolding listed same
inherits k = listed k prototype_names

-- The object `result`: its own properties, each with its array.
abbrev pub Params : Type 0
Params = List (Str × List Str)

unfoldable pub own : Str → Params → Option (List Str)
own k [] = none
own k ((j, vs) ∷ ps) = if same k j then some vs else own k ps

-- `result[key].push(value)` on an own property.
unfoldable pub push : Str → Str → Params → Params
push k v [] = []
push k v ((j, vs) ∷ ps) = if same k j then (j, vs ++ v ∷ []) ∷ ps else (j, vs) ∷ push k v ps

-- An inherited property is no array, so that `push` is undefined there.
unfoldable pub add : Str → Str → Params → Outcome Params
add k v ps = elim (own k ps) [
  | some vs ↦ ok (push k v ps)
  | none ↦ if inherits k then throw type_error else ok (ps ++ (k, v ∷ []) ∷ [])
]

-- `decodeURIComponent(undefined)` reads the text "undefined".
unfoldable pub part_at : Option Str → Str
part_at none = units "undefined"
part_at (some s) = s

-- The key and the value of one part: `part.split('=', 2)`.
unfoldable pub field_of : Str → Outcome (Str × Str)
field_of part = do
  let tmp = take 2 (split b'=' part)
  key ← urldecode (part_at (get_elem? tmp 0))
  value ← urldecode (part_at (get_elem? tmp 1))
  ok (key, value)

-- The loop over the parts.
unfoldable pub collect : List Str → Params → Outcome Params
collect [] result = ok result
collect (part ∷ parts) result = do
  (key, value) ← field_of part
  more ← add key value result
  collect parts more

-- What stands behind the first question mark, or the whole text where there is none.
unfoldable pub query_of : Str → Str
query_of s = elim (index_of (b'?' ∷ []) s) [ none ↦ s | some i ↦ drop (i + 1) s ]

unfoldable pub get_query_parameters : Str → Outcome Params
get_query_parameters s = collect (split b'&' (query_of s)) []

-- Without an argument the function reads `document.location.search`.
unfoldable pub query_parameters : Option Str → Str → Outcome Params
query_parameters none search = get_query_parameters search
query_parameters (some s) search = get_query_parameters s
