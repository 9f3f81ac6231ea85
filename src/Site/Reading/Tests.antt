-- ===== src/Site/Reading/Tests.antt =====
-- A reader who follows a link and lets the flash run out (scrollTo.js).
use mathlib.Core.List.{Forall₂}
use sbt_example.Common.{
  ℕ, ◌≡◌, refl, Str, units, same, Option, none, some, true, false, List, [], ◌∷◌, ok,
}
use sbt_example.Effects.Colors.{pos}
use sbt_example.Effects.Flash.{Element}
use sbt_example.Site.Scroll.{Window, above, flash_at, scroll_to, click_scroll}
use sbt_example.Site.Scroll.Follow.{first_with}
use sbt_example.Site.Reading.{Reach, follows, here, next}
use sbt_example.Site.Reading.Laws.{IsBack, Reach-AreBack}

abbrev find : Str → List (Option Str) → Option ℕ
find [] ids = none
find (c ∷ id) ids = first_with id ids

abbrev element : Element
element = record {
  style = (units "backgroundColor", units "white") ∷ [];
  storage = [];
  hidden = false;
  noted = [];
  shows = λ display noted. (display, noted);
  notes = λ display noted. noted;
  queue = [];
  running = none;
  called = [];
}

abbrev start : Window
start = record {
  targets =
      record { id = some (units "toc"); top = 3; element = element }
      ∷ record { id = some (units "Actors"); top = 120; element = element }
      ∷ [];
  scrolls = [];
  prevented = false;
}

abbrev followed : Window
followed = record {
  targets = flash_at 1 start.targets;
  scrolls = pos 120 ∷ above 120 ∷ [];
  prevented = true;
}

following : click_scroll find (units "#Actors") start ≡ ok followed
unfolding click_scroll first_with scroll_to same
following = refl

Reach-AreBack_example :
    (after : Window) × Reach find followed after × Forall₂ IsBack start.targets after.targets
Reach-AreBack_example =
    Reach-AreBack find start followed ((refl, refl), ((refl, refl), tt))
      (next here (follows (units "#Actors") following))
