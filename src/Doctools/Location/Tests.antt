-- ===== src/Doctools/Location/Tests.antt =====
-- The address of a page for `getCurrentURL` (doctools.js).
use sbt_example.Common.{◌≡◌, refl, Str, units, same, [], ◌∷◌, arith}
use sbt_example.Js.Text.{split, join, last_index_of}
use sbt_example.Doctools.Location.{pop, climb, after_last_slash, get_current_url}
use sbt_example.Doctools.Location.Laws.{but_last, path_of, climbs, get_current_url-below}

current : Str → Str → Str
unfolding get_current_url after_last_slash climb pop same split join last_index_of
current = get_current_url

-- The last character of the page's name is lost.
actors : current (units "../") (units "/akka_doc/scala/actors.html") ≡ units "scala/actors.htm"
unfolding current
actors = refl

one_level : climbs (split b'/' (units "../")) ≡ 1
unfolding split same
one_level = refl

actors_page : join b'/' (units "scala" ∷ units "actors.html" ∷ []) ≡ units "scala/actors.html"
unfolding join
actors_page = refl

get_current_url-below_example :
    get_current_url
      (units "../")
      (path_of [] (units "akka_doc" ∷ []) (units "scala") (units "actors.html" ∷ []))
    ≡ but_last (join b'/' (units "scala" ∷ units "actors.html" ∷ []))
get_current_url-below_example =
    get_current_url-below [] (units "akka_doc" ∷ []) (units "scala") (units "actors.html" ∷ [])
      (units "../") (omega arith) one_level (rw actors_page (omega arith))
