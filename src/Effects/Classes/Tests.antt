-- ===== src/Effects/Classes/Tests.antt =====
-- Two headings whose class is changed with a speed (effects.core.js).
use sbt_example.Common.{
  ◌≡◌, refl, sym, Str, units, same, same_iff, Bool, true, false, not, ◌&&◌, ◌||◌, Option, none,
  some, List, [], ◌∷◌, map, any, if◌then◌else◌, Bool-cases, inl, inr,
}
use sbt_example.Js.Text.{is_found, index_of, is_space}
use sbt_example.Effects.Verbs.{number}
use sbt_example.Effects.Styles.{
  value, CssStyle, css_property, differs, is_animated, offset_of, is_color, is_position, has_text,
  starts_with_number, starts_with_digit,
}
use sbt_example.Effects.Classes.{
  ClassFunctions, is_word, Styled, named, calls, visit_element, animation_of, visit_elements,
  set_toggle, last_change, animate_class, put_on, take_off, finish, show_frame, toggle_class,
  is_moving, queue_up, advance, start_next, run_completion, end_first, frame_on,
}
use sbt_example.Effects.Classes.Settled.{settle}
use sbt_example.Effects.Classes.Ends.{settle_all}
use sbt_example.Effects.Classes.Toggled.{AreToggled, toggle_class-IsSettled}

abbrev stands_in : Str → List Str → Bool
stands_in d cs = any (same d) cs

abbrev added : Str → List Str → List Str
added c cs = if stands_in c cs then cs else c ∷ cs

abbrev removed : Str → List Str → List Str
removed c [] = []
removed c (x ∷ cs) = if same c x then removed c cs else x ∷ removed c cs

stands_in-added :
    (c d : Str) (cs : List Str) → stands_in d (added c cs) ≡ (same d c || stands_in d cs)
stands_in-added c d cs = elim (Bool-cases (stands_in c cs)) [
  | inr lacks ↦ rw lacks refl
  | inl has ↦ rw has (elim (Bool-cases (same d c)) [
    | inr differ ↦ rw differ refl
    | inl it ↦ rw it (rw ((same_iff d c).0 it) has)
  ])
]

stands_in-removed :
    (c d : Str) (cs : List Str) → stands_in d (removed c cs) ≡ (not (same d c) && stands_in d cs)
stands_in-removed c d [] = elim (Bool-cases (same d c)) [
  | inl it ↦ rw it refl
  | inr differ ↦ rw differ refl
]
stands_in-removed c d (x ∷ cs) =
    let ih = stands_in-removed c d cs in
    elim (Bool-cases (same c x)) [
      | inl gone ↦ rw (gone, ih, sym ((same_iff c x).0 gone)) (table (same d c) (stands_in d cs))
      | inr kept ↦
          rw (kept, ih)
            (elim (Bool-cases (same d c)) [
              | inr differ ↦ rw differ refl
              | inl it ↦ rw (it, (same_iff d c).0 it, kept) refl
            ])
    ]
  where
    table : (b h : Bool) → (not b && h) ≡ (not b && (b || h))
    table true h = refl
    table false h = refl

abbrev class_functions : ClassFunctions
class_functions = record {
  add = added;
  remove = removed;
  toggle = λ c cs. if stands_in c cs then removed c cs else added c cs;
  has = stands_in;
  has-add = λ c d cs name. stands_in-added c d cs;
  has-remove = λ c d cs name. stands_in-removed c d cs;
}

-- A heading is red and wide as long as it has the class "active".
abbrev look : List Str → Option Str → CssStyle
look cs style =
    if stands_in (units "active") cs
    then (units "backgroundColor", value (units "red"))
      ∷ (units "width", value (units "80px"))
      ∷ (units "display", value (units "block"))
      ∷ []
    else (units "backgroundColor", value (units "white"))
      ∷ (units "width", value (units "60px"))
      ∷ (units "display", value (units "inline"))
      ∷ []

abbrev heading : List Str → Styled
heading cs = record {
  classes = cs;
  style = none;
  computed = look;
  running = [];
  waiting = [];
  in_progress = false;
  called = [];
}

-- A heading that looks the same with the class and without it.
abbrev bare : List Str → Styled
bare cs = record (heading cs) { computed = λ _ _. [] }

abbrev headings : List Styled
headings = heading (units "active" ∷ units "title" ∷ []) ∷ heading (units "title" ∷ []) ∷ []

-- Colours and lengths are animated, `display` is not.
heading-offset :
    offset_of (look [] none) (look (units "active" ∷ []) none)
    ≡ (units "backgroundColor", value (units "red")) ∷ (units "width", value (units "80px")) ∷ []
unfolding offset_of is_animated css_property differs is_color is_position has_text
    starts_with_number starts_with_digit same is_found index_of is_space
heading-offset = refl

-- Toggled one after the other the first heading would lose the class and the second get it.
headings-toggled :
    map
      (λ e. e.classes)
      (settle_all class_functions
        (λ e. units "width: 70px" ∷ [])
        (toggle_class class_functions
          (units "active")
          (number 500)
          (named (units "swing"))
          none
          headings))
    ≡ (units "title" ∷ []) ∷ (units "title" ∷ []) ∷ []
unfolding toggle_class animate_class last_change visit_elements visit_element animation_of
    set_toggle put_on take_off finish settle same show_frame is_moving offset_of is_animated
    css_property differs is_color is_position has_text starts_with_number starts_with_digit is_found
    index_of is_space queue_up advance start_next run_completion end_first frame_on
headings-toggled = refl

-- Without a property to animate each is complete at once: the first gets the class, and the second
-- loses it.
bare_toggled :
    map
      (λ e. e.classes)
      (toggle_class class_functions
        (units "active")
        (number 500)
        (calls 7)
        none
        (bare [] ∷ bare (units "active" ∷ []) ∷ []))
    ≡ (units "active" ∷ []) ∷ [] ∷ []
unfolding toggle_class animate_class last_change visit_elements visit_element animation_of
    set_toggle put_on take_off same is_moving offset_of advance start_next run_completion
bare_toggled = refl

toggle_class-IsSettled_example :
    AreToggled class_functions (some 7) (units "active") true false false headings (
      settle_all class_functions
        (λ e. units "width: 70px" ∷ [])
        (toggle_class class_functions (units "active") (number 500) (calls 7) none headings))
unfolding is_word same is_space
toggle_class-IsSettled_example =
    toggle_class-IsSettled class_functions (λ e. units "width: 70px" ∷ []) (number 500) (calls 7)
      none (units "active") refl refl refl headings ((refl, refl, refl), ((refl, refl, refl), tt))
