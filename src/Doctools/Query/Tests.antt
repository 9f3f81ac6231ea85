-- ===== src/Doctools/Query/Tests.antt =====
-- Runs of the query functions of doctools.js.
use sbt_example.Common.{
  ◌≡◌, refl, Str, units, Outcome, ok, throw, uri_error, type_error, List, [], ◌∷◌, arith, same, map,
  none, true, ◌↔◌,
}
use sbt_example.Js.Text.{split, join, index_of}
use sbt_example.Js.Loop.{convert}
use sbt_example.Js.Uri.Octets.{octet, hex_char, hex_value, read_octet}
use sbt_example.Js.Uri.{
  is_unreserved, escaped, encode_uri_component, decode_uri_component, encode_one, decode_one,
  decode_octet, decode_two, decode_three, decode_four, close_three, close_four, read_more,
}
use sbt_example.Doctools.Query.{
  Params, urlencode, urldecode, unplus, own, get_query_parameters, query_of, inherits, add, push,
  collect, field_of, part_at,
}
use sbt_example.Doctools.Query.Grouping.{decoded, values, extended, get_query_parameters-values}
use sbt_example.Js.Uri.{encode_pair}
use sbt_example.Js.Uri.Total.{is_well_formed}
use mathlib.Core.List.{Permᴰ}
use sbt_example.Doctools.Query.Order.{held, get_query_parameters-Perm}
use sbt_example.Doctools.Query.Shape.{AreArrays, get_query_parameters-AreArrays}
use sbt_example.Doctools.Query.Totality.{AreFree, get_query_parameters_iff, urlencode_iff}
use sbt_example.Doctools.Query.RoundTrip.{
  urldecode-urlencode, query_string, all_written, written, unplus_field,
  get_query_parameters-query_string,
}

-- The functions with all that they call opened.
encoded : Str → Outcome Str
unfolding urlencode encode_uri_component convert encode_one is_unreserved escaped octet hex_char
encoded = urlencode

decoded_text : Str → Outcome Str
unfolding urldecode decode_uri_component convert decode_one decode_octet read_octet hex_value
    decode_two decode_three decode_four close_three close_four read_more
decoded_text = urldecode

parsed : Str → Outcome Params
unfolding get_query_parameters decoded_text split query_of index_of collect field_of part_at add own
    same inherits push
parsed = get_query_parameters

encoded_euro : encoded (units "a+€") ≡ ok (units "a%2B%E2%82%AC")
unfolding encoded
encoded_euro = refl

decoded_euro : decoded_text (units "a%2B%E2%82%AC") ≡ ok (units "a €")
unfolding decoded_text
decoded_euro = refl

malformed : decoded_text (units "100%") ≡ throw uri_error
unfolding decoded_text
malformed = refl

grouped :
    parsed (units "?a=1&b=2&a=3")
    ≡ ok ((units "a", units "1" ∷ units "3" ∷ []) ∷ (units "b", units "2" ∷ []) ∷ [])
unfolding parsed
grouped = refl

-- What stands behind a second equals sign is lost, and a missing value reads "undefined".
cut_value :
    parsed (units "?a=1=2&b")
    ≡ ok ((units "a", units "1" ∷ []) ∷ (units "b", units "undefined" ∷ []) ∷ [])
unfolding parsed
cut_value = refl

inherited_key : parsed (units "?toString=1") ≡ throw type_error
unfolding parsed
inherited_key = refl

euro_written : urlencode (units "a+€") ≡ ok (units "a%2B%E2%82%AC")
unfolding encoded
euro_written = refl

urldecode-urlencode_example : urldecode (units "a%2B%E2%82%AC") ≡ ok (unplus (units "a+€"))
urldecode-urlencode_example =
    urldecode-urlencode (units "a+€") (units "a%2B%E2%82%AC") (omega arith) euro_written

abbrev search : Str
search = units "?a=1&b=2&a=3"

abbrev object : Params
object = (units "a", units "1" ∷ units "3" ∷ []) ∷ (units "b", units "2" ∷ []) ∷ []

search_read : get_query_parameters search ≡ ok object
unfolding parsed
search_read = refl

get_query_parameters-values_example :
    (fs : List (Str × Str)) × (decoded (split b'&' (query_of search)) ≡ ok fs)
    × ((j : Str) → own j object ≡ extended none (values j fs))
get_query_parameters-values_example = get_query_parameters-values search object search_read

get_query_parameters_iff_example :
    ((qs : Params) × (get_query_parameters search ≡ ok qs))
    ↔ ((fs : List (Str × Str)) × (decoded (split b'&' (query_of search)) ≡ ok fs) × AreFree fs)
get_query_parameters_iff_example = get_query_parameters_iff search

abbrev form : List (Str × Str)
form = (units "q", units "1+1 €") ∷ (units "a&b", units "=") ∷ (units "q", []) ∷ []

form_written : query_string form ≡ ok (units "?q=1%2B1%20%E2%82%AC&a%26b=%3D&q=")
unfolding query_string all_written written join encoded
form_written = refl

form_free : AreFree (map unplus_field form)
unfolding inherits
form_free = (refl, (refl, (refl, tt)))

get_query_parameters-query_string_example :
    (qs : Params) × (get_query_parameters (units "?q=1%2B1%20%E2%82%AC&a%26b=%3D&q=") ≡ ok qs)
    × ((j : Str) → own j qs ≡ extended none (values j (map unplus_field form)))
get_query_parameters-query_string_example =
    get_query_parameters-query_string form (units "?q=1%2B1%20%E2%82%AC&a%26b=%3D&q=") (λ e. cc)
      (omega arith) form_free form_written

get_query_parameters-AreArrays_example : AreArrays object
get_query_parameters-AreArrays_example = get_query_parameters-AreArrays search object search_read

-- A surrogate pair, and a high surrogate alone.
urlencode_pair : encoded (0xD83D ∷ 0xDE00 ∷ []) ≡ ok (units "%F0%9F%98%80")
unfolding encoded encode_pair
urlencode_pair = refl

urlencode_iff_example :
    ((e : Str) × (urlencode (0xD83D ∷ b'a' ∷ []) ≡ ok e))
    ↔ (is_well_formed (0xD83D ∷ b'a' ∷ []) ≡ true)
urlencode_iff_example = urlencode_iff (0xD83D ∷ b'a' ∷ [])

-- The same parts with the last one in front.
abbrev mixed : Str
mixed = units "?a=3&a=1&b=2"

mixed-Perm : Permᴰ (split b'&' (query_of search)) (split b'&' (query_of mixed))
unfolding split query_of index_of
mixed-Perm = Permᴰ.trans (Permᴰ.cons refl (Permᴰ.swap refl refl)) (Permᴰ.swap refl refl)

get_query_parameters-Perm_example :
    (qs : Params) × (get_query_parameters mixed ≡ ok qs)
    × ((j : Str) → Permᴰ (held (own j object)) (held (own j qs)))
get_query_parameters-Perm_example =
    get_query_parameters-Perm search mixed object mixed-Perm search_read
