-- ===== src/Site/Reading/Laws.antt =====
-- What the headings of a page come to while its reader follows links (scrollTo.js).
use mathlib.Core.List.{Forall₂}
use mathlib.Core.Path.{subst}
use sbt_example.Common.{
  true, ℕ, zero, suc, ◌≡◌, refl, ap, sym, ◌∙◌, Str, Option, none, some, List, [], ◌∷◌, ◌++◌,
  get_elem?, ok, All, map, length, same, units, false, Option-cases, inl, inr, arith,
}
use sbt_example.Effects.Flash.{Element, Event, flashed, ended, happen, happen_all, property}
use sbt_example.Effects.Flash.Callbacks.{IsIdleEmpty, happen_all-IsIdleEmpty}
use sbt_example.Effects.Flash.Endings.{endings, settled_lem}
use sbt_example.Effects.Flash.Laws.{style-happen_all}
use sbt_example.Site.Scroll.{Target, Window, flash, flash_at, scroll_to, click_scroll}
use sbt_example.Site.Reading.{end_at, follows, ends, Reach, here, next}

-- A heading and what it came to: its element has been through some flashes and ends of animations.
abbrev Follows : Target → Target → Type 0
Follows t u = (events : List Event) × (u.element ≡ happen_all events t.element)

happen_all-last :
    (events : List Event) (e : Event) (el : Element)
    → happen_all (events ++ e ∷ []) el ≡ happen e (happen_all events el)
unfolding happen_all
happen_all-last [] e el = refl
happen_all-last (d ∷ events) e el = happen_all-last events e (happen d el)

Follows-happen :
    (e : Event) (t u : Target) → Follows t u → Follows t (record u { element = happen e u.element })
Follows-happen e t u (events, same_one) =
    (events ++ e ∷ [], ap (happen e) same_one ∙ sym (happen_all-last events e t.element))

flash_at-Follows :
    (i : ℕ) {ts us : List Target} → Forall₂ Follows ts us → Forall₂ Follows ts (flash_at i us)
unfolding flash_at happen
flash_at-Follows i Forall₂.nil = Forall₂.nil
flash_at-Follows zero (Forall₂.cons {a = t} {b = u} h hs) =
    Forall₂.cons (Follows-happen (flashed flash) t u h) hs
flash_at-Follows (suc i) (Forall₂.cons h hs) = Forall₂.cons h (flash_at-Follows i hs)

end_at-Follows :
    (i : ℕ) {ts us : List Target} → Forall₂ Follows ts us → Forall₂ Follows ts (end_at i us)
unfolding end_at
end_at-Follows i Forall₂.nil = Forall₂.nil
end_at-Follows zero (Forall₂.cons {a = t} {b = u} h hs) =
    Forall₂.cons (Follows-happen ended t u h) hs
end_at-Follows (suc i) (Forall₂.cons h hs) = Forall₂.cons h (end_at-Follows i hs)

Follows-refl : (ts : List Target) → Forall₂ Follows ts ts
unfolding happen_all
Follows-refl [] = Forall₂.nil
Follows-refl (t ∷ ts) = Forall₂.cons ([], refl) (Follows-refl ts)

-- A click that finds its element flashes one of the targets.
scroll_to_inv :
    (o : Option ℕ) (w after : Window)
    → scroll_to o w ≡ ok after
    → (i : ℕ) × (after.targets ≡ flash_at i w.targets)
unfolding scroll_to
scroll_to_inv none w after e = cc
scroll_to_inv (some i) w after e = elim (Option-cases (get_elem? w.targets i)) [
  | inl missing ↦ let e' = rw (missing, scroll_to) at e in cc
  | inr (t, found) ↦ let e' = rw (found, scroll_to) at e in (i, ground arith)
]

-- Nothing runs on a heading and nothing waits.
abbrev pub IsResting : Target → Type 0
IsResting t = (t.element.running ≡ none) × (t.element.queue ≡ [])

-- A heading that rests and looks as it looked, but for what jQuery makes of `display`.
abbrev pub IsBack : Target → Target → Type 0
IsBack t u =
    IsResting u
    × ((k : Str)
        → same k (units "display") ≡ false
        → property k u.element.style ≡ property k t.element.style)

Follows-IsBack :
    {ts us : List Target}
    → Forall₂ Follows ts us
    → All IsResting ts
    → All IsResting us
    → Forall₂ IsBack ts us
Follows-IsBack Forall₂.nil rest rest' = Forall₂.nil
Follows-IsBack (Forall₂.cons {a = t} {b = u} (events, e) hs) (r, rest) (r', rest') =
    Forall₂.cons
      (
        r',
        λ k d.
            ap (λ (el : Element). property k el.style) e
            ∙ style-happen_all k events t.element d r.0
                (sym (ap (λ (el : Element). el.running) e) ∙ r'.0),
      )
      (Follows-IsBack hs rest rest')

-- Ends of animations, by the positions of their elements.
unfoldable run : List ℕ → List Target → List Target
run [] ts = ts
run (i ∷ is) ts = run is (end_at i ts)

run-append : (is js : List ℕ) (ts : List Target) → run (is ++ js) ts ≡ run js (run is ts)
unfolding run
run-append [] js ts = refl
run-append (i ∷ is) js ts = run-append is js (end_at i ts)

run-nil : (is : List ℕ) → run is [] ≡ []
unfolding run end_at
run-nil [] = refl
run-nil (i ∷ is) = run-nil is

run-behind :
    (is : List ℕ) (t : Target) (ts : List Target) → run (map suc is) (t ∷ ts) ≡ t ∷ run is ts
unfolding run end_at
run-behind [] t ts = refl
run-behind (i ∷ is) t ts = run-behind is t (end_at i ts)

firsts : ℕ → List ℕ
firsts zero = []
firsts (suc n) = 0 ∷ firsts n

run-firsts :
    (n : ℕ) (t : Target) (ts : List Target)
    → run (firsts n) (t ∷ ts) ≡ record t { element = happen_all (endings n) t.element } ∷ ts
unfolding run firsts end_at endings happen_all
run-firsts zero t ts = refl
run-firsts (suc n) t ts = run-firsts n (record t { element = happen ended t.element }) ts

-- Enough ends bring every heading to rest.
rests :
    (us : List Target)
    → All (λ u. IsIdleEmpty u.element.running u.element.queue) us
    → (is : List ℕ) × All IsResting (run is us)
unfolding run
rests [] h = ([], tt)
rests (u ∷ us) (h, hs) =
    let (is, rest) = rests us hs in
    let n = suc (length u.element.queue) in
    let last = record u { element = happen_all (endings n) u.element } in
    let (idle, empty, _) = settled_lem u.element h in
    let e =
      run-append (firsts n) (map suc is) (u ∷ us)
      ∙ ap (run (map suc is)) (run-firsts n u us)
      ∙ run-behind is last us in
    (firsts n ++ map suc is, subst (λ l. All IsResting l) (sym e) ((idle, empty), rest))

Follows-IsIdleEmpty :
    {ts us : List Target}
    → Forall₂ Follows ts us
    → All IsResting ts
    → All (λ u. IsIdleEmpty u.element.running u.element.queue) us
Follows-IsIdleEmpty Forall₂.nil rest = tt
Follows-IsIdleEmpty (Forall₂.cons {a = t} (events, e) hs) (r, rest) = (
  subst (λ el. IsIdleEmpty el.running el.queue) (sym e)
      (happen_all-IsIdleEmpty events t.element
        (subst (λ o. IsIdleEmpty o t.element.queue) (sym r.0) r.1)),
  Follows-IsIdleEmpty hs rest,
)

module _ (find : Str → List (Option Str) → Option ℕ) where
  Reach-Follows : (start w : Window) → Reach find start w → Forall₂ Follows start.targets w.targets
  unfolding click_scroll
  Reach-Follows start w here = Follows-refl start.targets
  Reach-Follows start w (next {w = before} r (follows href e)) =
      let (i, flashed_one) = scroll_to_inv _ (record before { prevented = true }) w e in
      subst (λ us. Forall₂ Follows start.targets us) (sym flashed_one)
        (flash_at-Follows i (Reach-Follows start before r))
  Reach-Follows start w (next r (ends before i)) = end_at-Follows i (Reach-Follows start before r)

  Reach-run :
      (is : List ℕ) (start w : Window)
      → Reach find start w
      → Reach find start (record w { targets = run is w.targets })
  unfolding run
  Reach-run [] start w r = r
  Reach-run (i ∷ is) start w r =
      Reach-run is start (record w { targets = end_at i w.targets }) (next r (ends w i))

  -- Let nothing run or wait on the headings of a page. Whatever links a reader has followed since,
  -- in whatever order and while whatever flashes ran, the page can come to where again nothing runs
  -- or waits on any heading, and there every property of their styles but `display` is what it
  -- was.
  pub Reach-AreBack :
      (start w : Window)
      → All IsResting start.targets
      → Reach find start w
      → (after : Window) × Reach find w after × Forall₂ IsBack start.targets after.targets
  Reach-AreBack start w rest r =
      let (is, rest') = rests w.targets (Follows-IsIdleEmpty (Reach-Follows start w r) rest) in
      let after = record w { targets = run is w.targets } in
      (
        after,
        Reach-run is w w here,
        Follows-IsBack (Reach-Follows start after (Reach-run is start w r)) rest rest',
      )
