-- ===== src/Doctools/Session/Tests.antt =====
-- The page of a search with a button of the index (doctools.js).
use sbt_example.Common.{
  ℕ, ◌+◌, ◌≡◌, refl, Str, units, same, [], ◌∷◌, Outcome, ok, leb, ◌&&◌, if◌then◌else◌, arith, true,
  false,
}
use sbt_example.Js.Text.{is_space, split, index_of}
use sbt_example.Js.Loop.{convert}
use sbt_example.Js.Uri.{decode_uri_component, decode_one}
use sbt_example.Doctools.Query.{
  own, query_parameters, get_query_parameters, query_of, urldecode, part_at, field_of, push, add,
  inherits, collect,
}
use sbt_example.Doctools.Highlight.{
  text, element, nil, cons, append_nodes, child_count, has_class, is_control, position, split_text,
  highlight_text, each_child, highlight, height,
}
use sbt_example.Doctools.Highlight.Unmark.{unmark, unmark_classes}
use sbt_example.Doctools.IndexTable.{group_of, init_index_table, show_togglers}
use sbt_example.Doctools.Search.{
  split_spaces, Page, terms_of, init, highlight_search_words, schedule, fix_firefox_anchor_bug,
  run_timers, hide_search_words, highlight_terms, highlight_text_in,
}
use sbt_example.Doctools.Session.{press, fires, hides, presses, Reach, opens, next}
use sbt_example.Doctools.Session.Laws.{IsLoaded, IsSound, Reach-IsSound, IsClean, Reach-IsClean}

abbrev fold : ℕ → ℕ
fold c = if leb b'A' c && leb c b'Z' then c + 32 else c

abbrev accepting : Str → Outcome (Unit {0})
accepting s = ok tt

-- `<p>Actors</p>`, and a button over one row.
abbrev loaded : Page
loaded = record {
  search = units "?highlight=actor";
  hash = false;
  mozilla = false;
  body = element (units "p") [] (cons (text (units "Actors")) nil) ∷ [];
  links = 0;
  waiting = [];
  reloads = 0;
  collapse_index = false;
  table = record {
    togglers = record { id = units "toggle-1"; src = units "minus.png"; display = false } ∷ [];
    rows = record { group = units "1"; visible = true } ∷ [];
  };
}

abbrev opened : Page
opened = record loaded {
  links = 1;
  waiting = (units "actor" ∷ []) ∷ [];
  table = record {
    togglers = record { id = units "toggle-1"; src = units "minus.png"; display = true } ∷ [];
    rows = record { group = units "1"; visible = true } ∷ [];
  };
}

opening : init accepting loaded ≡ ok opened
unfolding init highlight_search_words schedule fix_firefox_anchor_bug terms_of split_spaces is_space
    init_index_table show_togglers query_parameters get_query_parameters query_of index_of split
    collect field_of part_at urldecode decode_uri_component convert decode_one add own inherits push
    same
opening = refl

loaded-IsLoaded : IsLoaded loaded
unfolding group_of
loaded-IsLoaded = record {
  elements = (tt, tt);
  no_links = refl;
  distinct = (tt, tt);
  unfolded = ((([], refl), ((λ e. refl), tt)), tt);
}

-- The reader folds the group while the search waits.
folded : Reach accepting fold loaded (press 0 opened)
folded = next (opens opening) (presses opened 0)

Reach-IsSound_example : IsSound loaded.body (press 0 opened)
Reach-IsSound_example = Reach-IsSound accepting fold loaded (press 0 opened) loaded-IsLoaded folded

Reach-IsClean_example :
    (after : Page) × Reach accepting fold loaded after
    × IsClean accepting fold loaded.body after
    × (after.table ≡ (press 0 opened).table)
Reach-IsClean_example =
    Reach-IsClean accepting fold loaded (press 0 opened) loaded-IsLoaded folded (omega arith)

-- A reader who hides the matches before the timer fires: the marks come when their link is gone.
hidden_early : Reach accepting fold loaded (run_timers fold (hide_search_words opened))
hidden_early =
    next (next (opens opening) (hides opened (omega arith))) (fires (hide_search_words opened))

marked_without_link :
    ((run_timers fold (hide_search_words opened)).links ≡ 0)
    × ((run_timers fold (hide_search_words opened)).body
        ≡ element (units "p") [] (
            cons (text []) (
              cons
                (element
                  (units "span")
                  (units "highlighted" ∷ [])
                  (cons (text (units "Actor")) nil))
                (cons (text (units "s")) nil)))
          ∷ [])
unfolding run_timers hide_search_words highlight_terms highlight_text_in unmark highlight
    highlight_text position split_text each_child append_nodes child_count has_class is_control same
    index_of height unmark_classes
marked_without_link = (refl, refl)
