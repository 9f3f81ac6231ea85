-- ===== src/Site/Code.antt =====
-- highlightCode.js on pages whose code was highlighted before.
use sbt_example.Common.{
  ◌≡◌, refl, Str, units, Bool, true, false, ◌||◌, List, [], ◌∷◌, ◌++◌, arith, Bool-cases, inl, inr,
  All, same_refl,
}
use sbt_example.Doctools.Query.{listed}
use sbt_example.Site.{add_class, mark_code, mark_codes, highlight_code}

listed-append : (k : Str) (ns ms : List Str) → listed k (ns ++ ms) ≡ (listed k ns || listed k ms)
unfolding listed
listed-append k [] ms = refl
listed-append k (n ∷ ns) ms = ground (arith, listed-append k ns ms)

listed-add_class : (k : Str) (ns : List Str) → listed k (add_class k ns) ≡ true
unfolding add_class listed
listed-add_class k ns = elim (Bool-cases (listed k ns)) [
  | inl e ↦ rw (e, add_class) e
  | inr e ↦ rw (e, add_class) (ground (arith, listed-append k ns (k ∷ []), same_refl k))
]

listed-add_class_more :
    (k j : Str) (ns : List Str) → listed k ns ≡ true → listed k (add_class j ns) ≡ true
unfolding add_class
listed-add_class_more k j ns h = ground (arith, listed-append k ns (j ∷ []))

abbrev pub IsMarked : List Str → Type 0
IsMarked classes = listed (units "prettyprint") classes ≡ true

mark_code-IsMarked : (c : List Str) → IsMarked (mark_code c)
unfolding mark_code
mark_code-IsMarked c = elim (Bool-cases (listed (units "prettyprint") c)) [
  | inl e ↦ rw (e, mark_code) e
  | inr e ↦
      rw (e, mark_code)
        (listed-add_class_more (units "prettyprint") (units "linenums") _ (
          listed-add_class_more (units "prettyprint") (units "lang-scala") _
            (listed-add_class (units "prettyprint") c)))
]

mark_code_kept : (c : List Str) → IsMarked c → mark_code c ≡ c
unfolding mark_code
mark_code_kept c e = rw (e, mark_code) refl

mark_codes_kept : (cs : List (List Str)) → All IsMarked cs → mark_codes cs false ≡ (cs, false)
unfolding mark_codes
mark_codes_kept [] h = refl
mark_codes_kept (c ∷ cs) (e, h) = rw (e, mark_codes, mark_code_kept c e, mark_codes_kept cs h) refl

mark_codes-IsMarked : (cs : List (List Str)) (a : Bool) → All IsMarked (mark_codes cs a).0
unfolding mark_codes
mark_codes-IsMarked [] a = tt
mark_codes-IsMarked (c ∷ cs) a = (mark_code-IsMarked c, mark_codes-IsMarked cs _)

-- Run again on its own result, highlightCode.js leaves the elements as they are and does not call
-- `prettyPrint`, whether it is disabled or not.
pub highlight_code_twice :
    (disabled : Bool) (cs : List (List Str))
    → highlight_code disabled (highlight_code disabled cs).0
      ≡ ((highlight_code disabled cs).0, false)
unfolding highlight_code
highlight_code_twice true cs = refl
highlight_code_twice false cs =
    mark_codes_kept (mark_codes cs false).0 (mark_codes-IsMarked cs false)
