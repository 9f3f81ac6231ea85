-- ===== src/Doctools/Query/RoundTrip.antt =====
-- Queries written with `urlencode` and read with `getQueryParameters` (doctools.js).
use mathlib.Core.Path.{subst}
use sbt_example.Common.{
  ℕ, ◌≡◌, ◌≢◌, refl, ap, sym, Str, none, List, [], ◌∷◌, ◌++◌, map, arith, Outcome, ok, ◌>>=◌, ◌∙◌,
  bind_inv, All, All-imp, All-append,
}
use sbt_example.Js.Text.{split, join, index_of}
use sbt_example.Js.Text.Laws.{Lacks, split_of_Lacks, split-append, split-join}
use sbt_example.Js.Uri.{is_unreserved}
use sbt_example.Js.Uri.Steps.{IsUnit}
use sbt_example.Js.Uri.Safe.{IsSafe, encode-IsSafe}
use sbt_example.Js.Uri.Laws.{decode-encode}
use sbt_example.Doctools.Query.{
  Params, own, unplus, urlencode, urldecode, field_of, query_of, get_query_parameters, part_at,
}
use sbt_example.Doctools.Query.Grouping.{
  decoded, decoded_round, values, extended, get_query_parameters-values,
}
use sbt_example.Doctools.Query.Totality.{AreFree, get_query_parameters_iff}

-- Where `urlencode` returns on a string of 16-bit units, `urldecode` gives the string back, but
-- for its plus signs, which become spaces.
pub urldecode-urlencode :
    (s e : Str) → All IsUnit s → urlencode s ≡ ok e → urldecode e ≡ ok (unplus s)
unfolding urlencode urldecode
urldecode-urlencode s e p h = rw (decode-encode s e p h)

IsSafe-ne : (c : ℕ) → IsSafe c → (c ≢ b'&') × (c ≢ b'=')
unfolding is_unreserved
IsSafe-ne c h = (λ e. ground arith, λ e. ground arith)

urlencode-Lacks : (s e : Str) → All IsUnit s → urlencode s ≡ ok e → Lacks b'&' e × Lacks b'=' e
unfolding urlencode
urlencode-Lacks s e p h =
    let safe = encode-IsSafe s e p h in
    (
      All-imp IsSafe _ (λ c q. (IsSafe-ne c q).0) e safe,
      All-imp IsSafe _ (λ c q. (IsSafe-ne c q).1) e safe,
    )

-- One field, as a form writes it.
unfoldable pub written : Str × Str → Outcome Str
written (k, v) = do a ← urlencode k; b ← urlencode v; ok (a ++ (b'=' ∷ b))

unfoldable pub all_written : List (Str × Str) → Outcome (List Str)
all_written [] = ok []
all_written (f ∷ fs) = do a ← written f; as' ← all_written fs; ok (a ∷ as')

-- A query: a question mark and the fields with `&` between them.
unfoldable pub query_string : List (Str × Str) → Outcome Str
query_string fs = do parts ← all_written fs; ok (b'?' ∷ join b'&' parts)

abbrev pub IsTexts : Str × Str → Type 0
IsTexts (k, v) = All IsUnit k × All IsUnit v

abbrev pub unplus_field : Str × Str → Str × Str
unplus_field (k, v) = (unplus k, unplus v)

field_of-parts :
    (a b k v : Str)
    → Lacks b'=' a
    → Lacks b'=' b
    → urldecode a ≡ ok k
    → urldecode b ≡ ok v
    → field_of (a ++ (b'=' ∷ b)) ≡ ok (k, v)
unfolding field_of part_at
field_of-parts a b k v la lb da db = rw (split-append b'=' a b la, split_of_Lacks b'=' b lb, da, db)

-- What is known of one written field.
written_lem :
    (f : Str × Str) (part : Str)
    → IsTexts f
    → written f ≡ ok part
    → Lacks b'&' part × (field_of part ≡ ok (unplus_field f))
unfolding written
written_lem (k, v) part (pk, pv) h =
    let (a, ea, h') = bind_inv (urlencode k) _ h in
    let (b, eb, h'') = bind_inv (urlencode v) _ h' in
    let whole : a ++ (b'=' ∷ b) ≡ part = ground arith in
    let (la, la') = urlencode-Lacks k a pk ea in
    let (lb, lb') = urlencode-Lacks v b pv eb in
    (
      subst (λ l. Lacks b'&' l) whole (All-append _ a (b'=' ∷ b) la (equals_ne, lb)),
      ap field_of (sym whole)
          ∙ field_of-parts a b (unplus k) (unplus v) la' lb' (urldecode-urlencode k a pk ea)
              (urldecode-urlencode v b pv eb),
    )
  where
    equals_ne : ◌≢◌ {A = ℕ} b'=' b'&'
    equals_ne = omega arith

all_written_lem :
    (fs : List (Str × Str)) (parts : List Str)
    → All IsTexts fs
    → all_written fs ≡ ok parts
    → All (Lacks b'&') parts × (decoded parts ≡ ok (map unplus_field fs))
unfolding all_written
all_written_lem [] parts p h =
    let nothing : [] ≡ parts = ground arith in
    (subst (λ l. All (Lacks b'&') l) nothing tt, subst (λ l. decoded l ≡ ok []) nothing refl)
all_written_lem (f ∷ fs) parts (p, ps) h =
    let (part, e, h') = bind_inv (written f) _ h in
    let (rest, es, h'') = bind_inv (all_written fs) _ h' in
    let whole : part ∷ rest ≡ parts = ground arith in
    let (lack, read) = written_lem f part p e in
    let (lacks, reads) = all_written_lem fs rest ps es in
    (
      subst (λ l. All (Lacks b'&') l) whole (lack, lacks),
      subst (λ l. decoded l ≡ ok (map unplus_field (f ∷ fs))) whole
          (decoded_round part rest (unplus_field f) (map unplus_field fs) read reads),
    )

query_of-mark : (s : Str) → query_of (b'?' ∷ s) ≡ s
unfolding query_of index_of
query_of-mark s = refl

all_written-ne-nil :
    (fs : List (Str × Str)) (parts : List Str) → fs ≢ [] → all_written fs ≡ ok parts → parts ≢ []
unfolding all_written
all_written-ne-nil [] parts n h = absurd (n refl)
all_written-ne-nil (f ∷ fs) parts n h =
    let (part, e, h') = bind_inv (written f) _ h in
    let (rest, es, h'') = bind_inv (all_written fs) _ h' in λ e. ground arith

-- Let a query be written with `urlencode` from at least one field, where no key becomes an
-- inherited name when its plus signs are read as spaces. Then `getQueryParameters` returns on it,
-- and each key has its values in order, with plus signs turned into spaces, and no other key has
-- any.
pub get_query_parameters-query_string :
    (fs : List (Str × Str)) (q : Str)
    → fs ≢ []
    → All IsTexts fs
    → AreFree (map unplus_field fs)
    → query_string fs ≡ ok q
    → (qs : Params) × (get_query_parameters q ≡ ok qs)
      × ((j : Str) → own j qs ≡ extended none (values j (map unplus_field fs)))
unfolding query_string
get_query_parameters-query_string fs q n p free h =
    let (parts, e, h') = bind_inv (all_written fs) _ h in
    let whole : b'?' ∷ join b'&' parts ≡ q = ground arith in
    let (lacks, reads) = all_written_lem fs parts p e in
    let cut : split b'&' (query_of q) ≡ parts =
      ap (λ x. split b'&' (query_of x)) (sym whole)
      ∙ ap (split b'&') (query_of-mark _)
      ∙ split-join b'&' parts (all_written-ne-nil fs parts n e) lacks in
    let read : decoded (split b'&' (query_of q)) ≡ ok (map unplus_field fs) =
      ap decoded cut ∙ reads in
    let (qs, done) = (get_query_parameters_iff q).1 (map unplus_field fs, read, free) in
    let (gs, read', grouped) = get_query_parameters-values q qs done in
    let unique : gs ≡ map unplus_field fs = cc in
    (qs, done, λ j. grouped j ∙ ap (λ l. extended none (values j l)) unique)
