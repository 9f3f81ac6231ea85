-- ===== src/Effects/Classes/Toggled.antt =====
-- `toggleClass` (effects.core.js) with a speed, up to the end of its animations.
use sbt_example.Common.{
  or_assoc, or-true, or-false, ℕ, ◌≡◌, refl, ap, sym, ◌∙◌, Str, same, Bool, true, false, not, ◌&&◌,
  ◌||◌, Option, none, some, List, [], ◌∷◌, All, any, if◌then◌else◌, Bool-cases, inl, inr,
}
use sbt_example.Effects.Verbs.{Arg}
use sbt_example.Effects.Classes.{
  ClassFunctions, is_name, Change, Styled, Easing, callback_of, is_given, visit_element,
  visit_elements, set_toggle, last_change, keeps_function, is_moving, animate_class, toggle_class,
}
use sbt_example.Effects.Classes.Settled.{
  names, is_single, changed, settle, IsStill, IsSettled, visit_element-IsSettled,
}
use sbt_example.Effects.Classes.Ends.{settle_all}

named_if : Bool → Str → Option Str
named_if true c = some c
named_if false c = none

-- The object of a call of `toggleClass` when it was visited by an element without the class, and
-- by one with it.
pub toggling : Str → Bool → Bool → Change
toggling c lacked had = record { add = named_if lacked c; remove = named_if had c; toggle = some c }

covers : (a b c : Bool) → (a || b) ≡ c → a ≡ true → c ≡ true
covers true b c e h = sym e
covers false b c e h = cc

-- One of the two answers was seen, if any.
one_seen :
    (p q b all_p all_q lacked had : Bool)
    → ((p || not b) || all_p) ≡ lacked
    → ((q || b) || all_q) ≡ had
    → (lacked || had) ≡ true
one_seen true q b all_p all_q lacked had e f = ap (λ x. x || had) (sym e)
one_seen false q false all_p all_q lacked had e f = ap (λ x. x || had) (sym e)
one_seen false true true all_p all_q lacked had e f = ap (λ x. lacked || x) (sym f) ∙ or-true lacked
one_seen false false true all_p all_q lacked had e f =
    ap (λ x. lacked || x) (sym f) ∙ or-true lacked

names-named_if :
    (b : Bool) (c d : Str) → is_name c ≡ true → names (named_if b c) d ≡ (b && same d c)
unfolding named_if names
names-named_if b [] d h = cc
names-named_if true (x ∷ s) d h = refl
names-named_if false (x ∷ s) d h = refl

named_if-single : (b : Bool) (c : Str) → is_name c ≡ true → is_single (named_if b c) ≡ true
unfolding named_if is_single
named_if-single b [] h = cc
named_if-single true (x ∷ s) h = h
named_if-single false (x ∷ s) h = refl

-- What the object keeps once it names a class.
keeps_name :
    (b last : Bool) (c d : Str)
    → is_name c ≡ true
    → (b ≡ true → last ≡ true)
    → names (named_if b c) d ≡ true
    → names (named_if last c) d ≡ true
keeps_name false last c d h later named =
    let it : (false && same d c) ≡ true = sym (names-named_if false c d h) ∙ named in cc
keeps_name true last c d h later named = rw (later refl) named

changed-toggling :
    (c d : Str) (lacked had h : Bool)
    → is_name c ≡ true
    → (lacked || had) ≡ true
    → changed (toggling c lacked had) d h ≡ (if same d c then not had else h)
unfolding toggling
changed-toggling c d lacked had h name seen =
    rw (names-named_if lacked c d name, names-named_if had c d name)
      (table lacked had (same d c) h seen)
  where
    table :
        (lacked had it h : Bool)
        → (lacked || had) ≡ true
        → (not (had && it) && ((lacked && it) || h)) ≡ (if it then not had else h)
    table true true true h e = refl
    table true true false h e = refl
    table true false true h e = refl
    table true false false h e = refl
    table false true true h e = refl
    table false true false h e = refl
    table false false it h e = cc

module _ (jq : ClassFunctions) (callback : Option ℕ) (c : Str) (last_had : Bool) where
  -- The elements before and after. `had` says whether one of the elements visited so far had `c`,
  -- `last_had` whether one of all had it; the former counts for an element that has no property
  -- to animate, and is complete at once, and the latter for the others. What the visits so far have
  -- left in `value` is `toggling c lacked had`.
  pub AreToggled : Bool → Bool → List Styled → List Styled → Type 0
  AreToggled lacked had [] [] = Unit
  AreToggled lacked had (e ∷ es) (after ∷ afters) =
      let lacked' = lacked || not (jq.has c e.classes) in
      let had' = had || jq.has c e.classes in
      let counts = if is_moving jq (toggling c lacked' had') e then last_had else had' in
      IsSettled jq (λ d h. if same d c then not counts else h) callback e after
      × AreToggled lacked' had' es afters
  AreToggled lacked had _ _ = ⊥

module _ (jq : ClassFunctions) (frames : Styled → List Str) where
  abbrev has_it : Str → Styled → Bool
  has_it c e = jq.has c e.classes

  abbrev lacks_it : Str → Styled → Bool
  lacks_it c e = not (jq.has c e.classes)

  set_toggle-toggling :
      (c : Str) (lacked had : Bool) (e : Styled)
      → is_name c ≡ true
      → set_toggle jq e.classes (toggling c lacked had)
        ≡ toggling c (lacked || lacks_it c e) (had || has_it c e)
  unfolding set_toggle toggling named_if
  set_toggle-toggling [] lacked had e name = cc
  set_toggle-toggling (x ∷ s) lacked had e name = elim (Bool-cases (jq.has (x ∷ s) e.classes)) [
    | inl has ↦ rw (has, or-true had, or-false lacked) refl
    | inr lacks ↦ rw (lacks, or-true lacked, or-false had) refl
  ]

  last_change-toggling :
      (c : Str) (lacked had : Bool) (es : List Styled)
      → is_name c ≡ true
      → last_change jq (toggling c lacked had) es
        ≡ toggling c (lacked || any (lacks_it c) es) (had || any (has_it c) es)
  unfolding last_change
  last_change-toggling c lacked had [] name = rw (or-false lacked, or-false had) refl
  last_change-toggling c lacked had (e ∷ es) name = rw (set_toggle-toggling c lacked had e name) (
      last_change-toggling c (lacked || lacks_it c e) (had || has_it c e) es name
      ∙ rw
          (
            or_assoc lacked (lacks_it c e) (any (lacks_it c) es),
            or_assoc had (has_it c e) (any (has_it c) es),
          )
          refl)

  -- Every class but `c` is as before, and `c` stands at an element if `had` is false.
  abbrev toggled : Str → Bool → Str → Bool → Bool
  toggled c had d h = if same d c then not had else h

  module _ (speed : Arg) (easing : Easing) (callback : Option ℕ) where
    last_of :
        (c : Str) (moves lacked had p q : Bool)
        → (if moves then toggling c lacked had else toggling c p q)
          ≡ toggling c (if moves then lacked else p) (if moves then had else q)
    last_of c true lacked had p q = refl
    last_of c false lacked had p q = refl

    later :
        (moves : Bool) {p last : Bool}
        → (p ≡ true → last ≡ true)
        → p ≡ true
        → (if moves then last else p) ≡ true
    later true h e = h e
    later false h e = e

    both_seen :
        (moves lacked had p q : Bool)
        → (lacked || had) ≡ true
        → (p || q) ≡ true
        → ((if moves then lacked else p) || (if moves then had else q)) ≡ true
    both_seen true lacked had p q h k = h
    both_seen false lacked had p q h k = k

    visit_element-toggled :
        (c : Str) (p q lacked had : Bool)
        → is_name c ≡ true
        → keeps_function speed ≡ true
        → (p ≡ true → lacked ≡ true)
        → (q ≡ true → had ≡ true)
        → (lacked || had) ≡ true
        → (p || q) ≡ true
        → (e : Styled) → IsStill e
        → IsSettled jq
            (toggled c (if is_moving jq (toggling c p q) e then had else q))
            (callback_of easing callback)
            e
            (settle jq
              (frames
                (visit_element jq speed easing callback (toggling c lacked had) (toggling c p q) e))
              (visit_element jq speed easing callback (toggling c lacked had) (toggling c p q) e))
    unfolding toggling
    visit_element-toggled c p q lacked had name k adds removes seen now e still =
        let moves = is_moving jq (toggling c p q) e in
        let lacked' = if moves then lacked else p in
        let had' = if moves then had else q in
        let (stands, style, still', calls) =
          visit_element-IsSettled jq speed easing callback (toggling c lacked had) (toggling c p q)
            (toggling c lacked' had') k (named_if-single p c name) (named_if-single q c name)
            (named_if-single lacked' c name) (named_if-single had' c name)
            (λ d. keeps_name p lacked' c d name (later moves adds))
            (λ d. keeps_name q had' c d name (later moves removes)) _ e still
            (last_of c moves lacked had p q) in
        (
          (λ d.
              stands d
              ∙ changed-toggling c d lacked' had' _ name (both_seen moves lacked had p q seen now)),
          style,
          still',
          calls,
        )

    visit_elements-toggled :
        (c : Str) (p q lacked had : Bool)
        → is_name c ≡ true
        → keeps_function speed ≡ true
        → (es : List Styled) → All IsStill es
        → (p || any (lacks_it c) es) ≡ lacked
        → (q || any (has_it c) es) ≡ had
        → AreToggled jq (callback_of easing callback) c had p q es (
            settle_all jq frames
              (visit_elements jq speed easing callback (toggling c lacked had) (toggling c p q) es))
    unfolding visit_elements AreToggled
    visit_elements-toggled c p q lacked had name k [] still adds removes = tt
    visit_elements-toggled c p q lacked had name k (e ∷ es) (still, rest) adds removes =
        let adds' = or_assoc p (lacks_it c e) (any (lacks_it c) es) ∙ adds in
        let removes' = or_assoc q (has_it c e) (any (has_it c) es) ∙ removes in
        rw (set_toggle-toggling c p q e name) (
          visit_element-toggled c (p || lacks_it c e) (q || has_it c e) lacked had name k
              (covers _ _ _ adds') (covers _ _ _ removes')
              (one_seen p q (has_it c e) (any (lacks_it c) es) (any (has_it c) es) lacked had adds'
                removes')
              (one_seen p q (has_it c e) false false _ _ (or-false _) (or-false _)) e still,
          visit_elements-toggled c (p || lacks_it c e) (q || has_it c e) lacked had name k es rest
              adds' removes',
        )

    -- Let nothing run or wait on the elements, let `c` be a class name, and let the speed be no
    -- object. When the animations of toggleClass with the speed are over, an element with a
    -- property to animate has `c` exactly if none of the elements had it before, so that where
    -- some had it and others lacked it, none of those has it. An element without a property to
    -- animate has it exactly if neither it nor one visited earlier had it. The other classes and
    -- the style attribute read as before, and the callback, if there is one, was made once for
    -- each element.
    pub toggle_class-IsSettled :
        (c : Str)
        → is_name c ≡ true
        → is_given speed ≡ true
        → keeps_function speed ≡ true
        → (es : List Styled) → All IsStill es
        → AreToggled jq
            (callback_of easing callback)
            c
            (any (λ e. jq.has c e.classes) es)
            false
            false
            es
            (settle_all jq frames (toggle_class jq c speed easing callback es))
    unfolding toggle_class animate_class toggling named_if
    toggle_class-IsSettled c name given k es still =
        rw (given, last_change-toggling c false false es name)
          (visit_elements-toggled c false false _ _ name k es still refl refl)
