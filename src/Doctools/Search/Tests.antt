-- ===== src/Doctools/Search/Tests.antt =====
-- A page with a search (doctools.js).
use sbt_example.Doctools.Search.Terms.{
  ends_space, is_empty, joined, without_spaces, split_spaces_lem,
}
use sbt_example.Common.{
  ℕ, ◌+◌, ◌*◌, ◌≤◌, ◌≡◌, ◌≢◌, ◌↔◌, true, refl, sym, ◌∙◌, inr, Str, units, same, false, none, some,
  [], ◌∷◌, All, Outcome, ok, throw, type_error, leb, ◌&&◌, if◌then◌else◌, arith, any, ◌||◌,
}
use sbt_example.Js.Text.{is_found, is_space, split, index_of}
use sbt_example.Js.Loop.{convert}
use sbt_example.Js.Uri.{decode_uri_component, decode_one}
use sbt_example.Doctools.Query.{
  own, query_parameters, get_query_parameters, query_of, urldecode, part_at, field_of, push, add,
  inherits, collect,
}
use sbt_example.Doctools.Highlight.{
  Node, text, element, Nodes, nil, cons, append_nodes, child_count, has_class, is_control, position,
  split_text, highlight_text, each_child, highlight, height,
}
use sbt_example.Doctools.Highlight.Content.{content, contents, highlight-contents}
use sbt_example.Doctools.Highlight.Hits.{AreHits, AreHitsBelow, highlight-AreHits}
use sbt_example.Doctools.Highlight.Reach.{reaches, highlight_iff, sizes, size}
use sbt_example.Doctools.Highlight.Growth.{highlight-size}
use sbt_example.Doctools.Highlight.Missed.{highlight_missed}
use sbt_example.Doctools.Highlight.Searched.{FirstAre, LacksTerm, highlight_searched}
use sbt_example.Doctools.Highlight.Depth.{highlight_enough}
use sbt_example.Doctools.Search.{split_spaces, Page, terms_of, init, starts_space}
use sbt_example.Doctools.Search.Start.{IsStopped, init_throws_iff}

-- Lower case for ASCII letters.
abbrev fold : ℕ → ℕ
fold c = if leb b'A' c && leb c b'Z' then c + 32 else c

-- `<p>An Actor<b>Actor</b></p>`.
abbrev paragraph : Node
paragraph = element (units "p") [] (
    cons (text (units "An Actor."))
      (cons (element (units "b") [] (cons (text (units "Actor")) nil)) nil))

searched : Node → Nodes
unfolding highlight highlight_text position split_text each_child append_nodes child_count has_class
    is_control same index_of
searched n = highlight fold (units "actor") (units "highlighted") 4 false n

-- The second occurrence is not reached.
searched-paragraph :
    searched paragraph
    ≡ cons
        (element (units "p") [] (
          cons (text (units "An ")) (
            cons
              (element (units "span") (units "highlighted" ∷ []) (cons (text (units "Actor")) nil))
              (cons
                (text (units "."))
                (cons (element (units "b") [] (cons (text (units "Actor")) nil)) nil)))))
        nil
unfolding searched
searched-paragraph = refl

abbrev page : Page
page = record {
  search = units "?highlight=an++actor";
  hash = false;
  mozilla = false;
  body = paragraph ∷ [];
  links = 0;
  waiting = (units "an" ∷ units "Actor" ∷ []) ∷ [];
  reloads = 0;
  collapse_index = false;
  table = record { togglers = []; rows = [] };
}

-- jQuery refuses the selector, or takes it.
abbrev refusing : Str → Outcome (Unit {0})
refusing s = throw type_error

abbrev accepting : Str → Outcome (Unit {0})
accepting s = ok tt

search_read :
    query_parameters none page.search ≡ ok ((units "highlight", units "an  actor" ∷ []) ∷ [])
unfolding query_parameters get_query_parameters query_of index_of split collect field_of part_at
    urldecode decode_uri_component convert decode_one add own inherits push same
search_read = refl

search_terms :
    terms_of ((units "highlight", units "an  actor" ∷ []) ∷ []) ≡ units "an" ∷ units "actor" ∷ []
unfolding terms_of own same split_spaces is_space
search_terms = refl

highlight-contents_example :
    contents (highlight fold (units "actor") (units "highlighted") 4 false paragraph)
    ≡ content paragraph
highlight-contents_example =
    highlight-contents fold (units "actor") (units "highlighted") 4 false paragraph

unmarked_paragraph : AreHits fold (units "actor") (units "highlighted") paragraph
unfolding AreHits has_class
unmarked_paragraph = ((λ e. cc), (tt, (((λ e. cc), (tt, tt)), tt)))

highlight-AreHits_example :
    AreHitsBelow fold
      (units "actor")
      (units "highlighted")
      (highlight fold (units "actor") (units "highlighted") 4 false paragraph)
highlight-AreHits_example =
    highlight-AreHits fold (units "actor") (units "highlighted") 4 false paragraph
      unmarked_paragraph

found_actor : position fold (units "actor") (units "highlighted") (units "An Actor.") ≡ some 3
unfolding position index_of
found_actor = refl

p_no_control : is_control (units "p") ≡ false
unfolding is_control same
p_no_control = refl

highlight_missed_example :
    highlight fold (units "actor") (units "highlighted") 4 false paragraph
    ≡ cons
        (element (units "p") [] (
          append_nodes
            (split_text fold (units "actor") (units "highlighted") (units "An Actor.") 3)
            (cons (element (units "b") [] (cons (text (units "Actor")) nil)) nil)))
        nil
highlight_missed_example =
    highlight_missed fold (units "actor") (units "highlighted") 2 false (units "p") []
      (units "An Actor.") 3 (element (units "b") [] (cons (text (units "Actor")) nil)) p_no_control
      (unfold has_class in refl) found_actor

low_paragraph : height paragraph ≡ 3
unfolding height
low_paragraph = refl

highlight_enough_example :
    highlight fold (units "actor") (units "highlighted") 3 false paragraph
    ≡ highlight fold (units "actor") (units "highlighted") 9 false paragraph
highlight_enough_example =
    highlight_enough fold (units "actor") (units "highlighted") 3 9 false paragraph
      (rw low_paragraph (omega arith)) (rw low_paragraph (omega arith))

highlight-size_example :
    sizes (highlight fold (units "actor") (units "highlighted") 3 false paragraph)
    ≤ 4 * size paragraph
highlight-size_example = highlight-size fold (units "actor") (units "highlighted") 3 false paragraph

-- A text that has the term becomes four nodes.
largest : sizes (highlight_text fold (units "b") (units "highlighted") false (units "abc")) ≡ 4
unfolding highlight_text position index_of split_text size
largest = refl

highlight_searched_example :
    (ms : Nodes) × (highlight fold
        (units "actor")
        (units "highlighted")
        2
        false
        (element (units "p") [] (cons (text (units "An Actor.")) (cons (text (units "actor")) nil)))
      ≡ cons (element (units "p") [] ms) nil)
    × FirstAre (LacksTerm fold (units "actor") (units "highlighted")) 2 ms
unfolding child_count
highlight_searched_example =
    highlight_searched fold (units "actor") (units "highlighted") 0 false (units "p") []
      (cons (text (units "An Actor.")) (cons (text (units "actor")) nil)) (λ e. cc) p_no_control
      (unfold has_class in refl)

init_throws_iff_example :
    (init refusing page ≡ throw type_error) ↔ IsStopped refusing page type_error
init_throws_iff_example = init_throws_iff refusing page type_error

-- The page's query has terms, and its selector is refused.
init_stopped : init refusing page ≡ throw type_error
init_stopped =
    (init_throws_iff refusing page type_error).1 (
      inr
        ((units "highlight", units "an  actor" ∷ []) ∷ [], search_read, (λ e. some_terms e), refl))
  where
    some_terms : terms_of ((units "highlight", units "an  actor" ∷ []) ∷ []) ≢ []
    some_terms e = let listed = sym search_terms ∙ e in cc

highlight_iff_example :
    highlight fold (units "typed") (units "highlighted") 4 false paragraph ≡ cons paragraph nil
    ↔ reaches fold (units "typed") (units "highlighted") false paragraph ≡ false
highlight_iff_example =
    highlight_iff fold (units "typed") (units "highlighted") 4 false paragraph
      (omega (arith, low_paragraph))

paragraph-reaches :
    (reaches fold (units "typed") (units "highlighted") false paragraph ≡ false)
    × (reaches fold (units "actor") (units "highlighted") false paragraph ≡ true)
unfolding reaches position index_of is_found has_class is_control same
paragraph-reaches = (refl, refl)

split_spaces_lem_example :
    All (All (λ c. is_space c ≡ false)) (split_spaces (units "an actor "))
    × (joined (split_spaces (units "an actor ")) ≡ without_spaces (units "an actor "))
    × (any is_empty (split_spaces (units "an actor ")) ≡ (
        is_empty (units "an actor ")
        || starts_space (units "an actor ")
        || ends_space (units "an actor ")))
split_spaces_lem_example = split_spaces_lem (units "an actor ")

-- A space at the end gives an empty term, which is found in every text.
empty_term :
    (split_spaces (units "actor ") ≡ units "actor" ∷ [] ∷ [])
    × (position fold [] (units "highlighted") (units "text") ≡ some 0)
unfolding split_spaces is_space position index_of
empty_term = (refl, refl)
