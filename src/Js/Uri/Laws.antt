-- ===== src/Js/Uri/Laws.antt =====
-- `decodeURIComponent` behind `encodeURIComponent`.
use sbt_example.Common.{◌≡◌, Str, All, ok, length}
use native.Mathlib.Nat.{le_refl}
use sbt_example.Js.Loop.{convert-convert}
use sbt_example.Js.Uri.{encode_one, decode_one, encode_uri_component, decode_uri_component}
use sbt_example.Js.Uri.Steps.{IsUnit, encode_one-IsAdvancing, encode_one-IsReadBy}

-- What `encodeURIComponent` returns, `decodeURIComponent` reads back.
pub decode-encode :
    (s e : Str) → All IsUnit s → encode_uri_component s ≡ ok e → decode_uri_component e ≡ ok s
unfolding encode_uri_component decode_uri_component
decode-encode s e p h =
    convert-convert IsUnit encode_one decode_one encode_one-IsAdvancing encode_one-IsReadBy
      (length s) (length e) s e p (le_refl _) (le_refl _) h
