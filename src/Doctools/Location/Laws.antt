-- ===== src/Doctools/Location/Laws.antt =====
-- `getCurrentURL` (doctools.js) on the addresses of pages.
use mathlib.Core.Path.{ap₂}
use mathlib.Core.List.{foldl}
use sbt_example.Common.{
  ℕ, suc, ◌-◌, ◌≤◌, ◌<◌, ◌≡◌, refl, ap, sym, ◌∙◌, Str, units, same, true, false, none, some, List,
  [], ◌∷◌, ◌++◌, append_assoc, append-nil, if◌then◌else◌, length, take, All, All-right, arith,
  Bool-cases, inl, inr, length-append, drop-append,
}
use sbt_example.Js.Text.{split, join, last_index_of, substring}
use sbt_example.Js.Text.Laws.{Lacks, split-join, substring_le}
use sbt_example.Doctools.Location.{pop, climb, after_last_slash, get_current_url}

-- How often the root climbs.
abbrev pub climbs : List Str → ℕ
climbs [] = 0
climbs (p ∷ ps) = if same p (units "..") then suc (climbs ps) else climbs ps

pop-append : (xs : List Str) (y : Str) (ys : List Str) → pop (xs ++ y ∷ ys) ≡ xs ++ pop (y ∷ ys)
unfolding pop
pop-append [] y ys = refl
pop-append (x ∷ []) y ys = refl
pop-append (x ∷ x' ∷ xs) y ys = ap (λ l. x ∷ l) (pop-append (x' ∷ xs) y ys)

length-pop : (y : Str) (ys : List Str) → length (pop (y ∷ ys)) ≡ length ys
unfolding pop
length-pop y [] = refl
length-pop y (z ∷ ys) = ap suc (length-pop z ys)

climb_up_lem : (p : Str) → same p (units "..") ≡ true → (l : List Str) → climb l p ≡ pop l
unfolding climb
climb_up_lem p up l = rw up

climb_stays : (p : Str) → same p (units "..") ≡ false → (l : List Str) → climb l p ≡ l
unfolding climb
climb_stays p stays l = rw stays

climb_up :
    (root xs back : List Str) (p : Str)
    → same p (units "..") ≡ true
    → suc (climbs root) ≡ length back
    → ((ys : List Str) → climbs root ≡ length ys → foldl climb (xs ++ ys) root ≡ xs)
    → foldl climb (climb (xs ++ back) p) root ≡ xs
climb_up root xs [] p up h ih = absurd (omega arith)
climb_up root xs (y ∷ ys) p up h ih =
    ap (λ l. foldl climb l root) (climb_up_lem p up (xs ++ y ∷ ys) ∙ pop-append xs y ys)
    ∙ ih (pop (y ∷ ys)) (omega (arith, length-pop y ys))

-- Climbing as often as there are parts behind `xs` leaves `xs`.
foldl-climb :
    (root xs back : List Str) → climbs root ≡ length back → foldl climb (xs ++ back) root ≡ xs
foldl-climb [] xs [] h = append-nil xs
foldl-climb [] xs (y ∷ ys) h = absurd (omega arith)
foldl-climb (p ∷ root) xs back h = elim (Bool-cases (same p (units ".."))) [
  | inl up ↦ climb_up root xs back p up (ground arith) (λ ys k. foldl-climb root xs ys k)
  | inr stays ↦
      ap (λ l. foldl climb l root) (climb_stays p stays (xs ++ back))
      ∙ foldl-climb root xs back (ground arith)
]

last_index_of-Lacks : (c : ℕ) (q : Str) → Lacks c q → last_index_of c q ≡ none
unfolding last_index_of
last_index_of-Lacks c [] h = refl
last_index_of-Lacks c (x ∷ q) h = ground (arith, last_index_of-Lacks c q h.1)

last_index_of-append :
    (c : ℕ) (p q : Str) → Lacks c q → last_index_of c (p ++ (c ∷ q)) ≡ some (length p)
unfolding last_index_of
last_index_of-append c [] q h = ground (arith, last_index_of-Lacks c q h)
last_index_of-append c (x ∷ p) q h = ground (arith, last_index_of-append c p q h)

join-append :
    (sep : ℕ) (f : Str) (fs : List Str) (g : Str) (gs : List Str)
    → join sep ((f ∷ fs) ++ g ∷ gs) ≡ join sep (f ∷ fs) ++ (sep ∷ join sep (g ∷ gs))
unfolding join
join-append sep f [] g gs = refl
join-append sep f (f' ∷ fs) g gs =
    ap (λ l. f ++ (sep ∷ l)) (join-append sep f' fs g gs)
    ∙ sym (append_assoc f (sep ∷ join sep (f' ∷ fs)) (sep ∷ join sep (g ∷ gs)))

-- All but the last character.
abbrev pub but_last : Str → Str
but_last s = take (length s - 1) s

substring_tail :
    (a b : Str) → 0 < length b → substring (length a) (length (a ++ b) - 1) (a ++ b) ≡ but_last b
substring_tail a b h =
    let room : length a ≤ length (a ++ b) - 1 = omega (arith, length-append a b) in
    let size : length (a ++ b) - 1 - length a ≡ length b - 1 = omega (arith, length-append a b) in
    substring_le (length a) (length (a ++ b) - 1) (a ++ b) room ∙ ap₂ take size (drop-append a b)

-- A path: the parts `f`, `fs`, `g` and `back` with slashes between them.
abbrev pub path_of : Str → List Str → Str → List Str → Str
path_of f fs g back = join b'/' ((f ∷ fs) ++ g ∷ back)

module _ (f : Str) (fs : List Str) (g : Str) (back : List Str) (root : Str)
    (lacks : All (Lacks b'/') ((f ∷ fs) ++ g ∷ back))
    (level : climbs (split b'/' root) ≡ length back) where
  url_is_folder :
      foldl climb (split b'/' (path_of f fs g back)) (split b'/' root) ≡ (f ∷ fs) ++ g ∷ []
  url_is_folder =
      ap (λ l. foldl climb l (split b'/' root))
        (split-join b'/' ((f ∷ fs) ++ g ∷ back) (λ e. cc) lacks)
      ∙ ap (λ l. foldl climb l (split b'/' root)) (sym (append_assoc (f ∷ fs) (g ∷ []) back))
      ∙ foldl-climb (split b'/' root) ((f ∷ fs) ++ g ∷ []) back level

  cut_at :
      after_last_slash (join b'/' ((f ∷ fs) ++ g ∷ [])) ≡ length (join b'/' (f ∷ fs) ++ (b'/' ∷ []))
  unfolding after_last_slash last_index_of join
  cut_at = rw (join-append b'/' f fs g []) (
      rw (last_index_of-append b'/' (join b'/' (f ∷ fs)) g g_lacks)
        (sym (length-append (join b'/' (f ∷ fs)) (b'/' ∷ []))))
    where
      g_lacks : Lacks b'/' g
      g_lacks = (All-right (Lacks b'/') (f ∷ fs) (g ∷ back) lacks).0

  -- Let a path have slashes only between its parts, and let the root climb out of as many folders
  -- as follow `g`. Then the page's URL below the root is the path from `g` on without its last
  -- character, unless that path is empty.
  pub get_current_url-below :
      0 < length (join b'/' (g ∷ back))
      → get_current_url root (path_of f fs g back) ≡ but_last (join b'/' (g ∷ back))
  unfolding get_current_url
  get_current_url-below h =
      let whole : (path_of f fs g back)
          ≡ (join b'/' (f ∷ fs) ++ (b'/' ∷ [])) ++ join b'/' (g ∷ back) =
        join-append b'/' f fs g back
        ∙ sym (append_assoc (join b'/' (f ∷ fs)) (b'/' ∷ []) (join b'/' (g ∷ back))) in
      ap
        (λ l.
          substring (after_last_slash (join b'/' l)) (length (path_of f fs g back) - 1)
            (path_of f fs g back))
        url_is_folder
      ∙ ap (λ k. substring k (length (path_of f fs g back) - 1) (path_of f fs g back)) cut_at
      ∙ ap (λ p. substring (length (join b'/' (f ∷ fs) ++ (b'/' ∷ []))) (length p - 1) p) whole
      ∙ substring_tail (join b'/' (f ∷ fs) ++ (b'/' ∷ [])) (join b'/' (g ∷ back)) h
