-- ===== src/Lib.antt =====
-- The scripts that this repository adds to the pages of its copy of the Akka documentation, under
-- akka_doc/_static. A page loads doctools.js, which runs `Documentation.init` when the page is
-- ready: it reads the query of the address with `getQueryParameters`, lets a timer search the words
-- it finds there with `highlightText`, and gives the buttons of an index their handlers. The
-- translations (`gettext`, `ngettext`) and the addresses (`makeURL`, `getCurrentURL`) are called
-- from other scripts. toc.js lists the headings of a page, and numbers them where asked to. A link
-- of that list scrolls to its heading and flashes it by the effect of effects.highlight.js, whose
-- animation goes through the colours of effects.core.js.
--
-- Files, with the code they are about:
--   Common, Common/*: tests on numbers, lists, strings, and results of code that may throw.
--   Js/Text, Js/Uri, Js/Loop, Js/Decimal: built-in functions of the language, written out from its
--     definition. Strings are lists of 16-bit units.
--   Doctools/Query (doctools.js 33-62): `urldecode`, `urlencode`, `getQueryParameters`. An object
--     is the list of its own properties; the names that `in` finds beyond them are
--     `prototype_names`.
--   Doctools/Highlight (doctools.js 80-104): `highlightText` over a tree of nodes. `highlight`
--     gives the nodes that stand for a node after the visit, and `each_child` is the loop of
--     `jQuery.each`, which counts the child nodes before its first round.
--   Doctools/Highlight/Unmark, Doctools/Search (doctools.js 101-115, 168-192, 215-218): the search
--     of a page. `Page` holds the body, the address, the searches that wait for their timer, and
--     the links that hide the matches.
--   Doctools/Context (doctools.js 150-163): `addContextElements`, which gives the headings and the
--     definitions of a page their links.
--   Doctools/IndexTable (doctools.js 197-210): `initIndexTable` and the handler `click`.
--   Doctools/Session (doctools.js 183-190, 198-206, 245-247): the page from the moment it is ready, as a
--     step relation: its timer and the clicks of a reader come in any order.
--   Doctools/Catalog (doctools.js 120-145): the translations.
--   Doctools/Location (doctools.js 68-74, 223-239): `jQuery.contains`, `makeURL`, `getCurrentURL`.
--   Toc/Outline (toc.js 64-68, 108-123): the list as a tree, `checkContainer`, `appendToTOC`.
--   Toc/Numbering (toc.js 73-81, 93-103): the counters, `updateNumeration`, `addNumeration`.
--   Toc/Anchor (toc.js 86-88): `generateId`.
--   Toc/Build (toc.js 27-58, 125-130): the plugin's function over the headings of a page.
--   Effects/Names, Effects/Pattern, Effects/Colors (effects.core.js 185-250, 256-301): the colours of
--     an animation, `getRGB`, `getColor` and the step of a colour.
--   Effects/Flash (effects.core.js 15-28, effects.highlight.js 15-46): the flash of a heading, as a
--     function in the queue of its element; `Event` is what happens to an element from outside. What
--     jQuery's `show` and `hide` write to the display of an element is given by its `shows` and
--     `notes`; that it is shown or hidden by them takes for granted that it stands in no hidden one.
--   Js/Number, Effects/Easing (effects.core.js 346-473): the easing equations, over an interface of
--     the numbers of the language.
--   Effects/Wrapper (effects.core.js 46-68): `createWrapper` and `removeWrapper`, over an element and
--     those around it.
--   Effects/Units (effects.core.js 29-45, 69-76, 168-175): `getBaseline`, `setTransition`, `cssUnit`.
--   Effects/Verbs (effects.core.js 125-151): `show`, `hide` and `toggle`, where they run an effect.
--   Effects/Styles, Effects/Classes (effects.core.js 77-112, 152-166): `animateClass`, and the functions
--     of classes that call it. `Change` is the object that the elements of a call share: an
--     animation holds what the visits leave in it. Of jQuery's `animate` the model has what the code
--     meets: the queue of an element, an animation of no properties that is complete at once, and an
--     object in place of the duration, with which the completion function is dropped; such options
--     are taken to name no completion and no queue. `settle` runs an animation to its end.
--   Site/Scroll (scrollTo.js 3-8): a click on a link of the list: the way the page scrolls, and the
--     flash of the heading.
--   Site/Reading (scrollTo.js 1-9, effects.highlight.js 36-42): a reader who follows links of the list
--     while flashes run, as a step relation.
--   Site (contentsFix.js, highlightCode.js): what a page does with the list and its code when it is
--     ready.
-- In the children of these modules stand the laws; those named Tests hold runs on small data.
--
-- Parameters: jQuery's test of an element against a selector (`matches`), its acceptance of a
-- selector text (`select`), and `fold`, the lower case of a unit. With `fold`, `toLowerCase` keeps
-- the length of a string, which leaves out U+0130 and the final sigma. A compiled plural expression
-- is a function of the number. The numbers of the language stand for the parts of a colour: `int`
-- gives a natural number, `percent` the product of a percentage and 2.55, and `shade` the value of a
-- step, a whole number; `trim` is jQuery's. `find` is the element that jQuery finds by a link's hash,
-- and `own` what jQuery's own `show`, `hide` and `toggle` do. `ClassFunctions` is jQuery's own work on
-- classes, with what it documents of a single name, and an element brings what the browser computes
-- from its classes and its style attribute.
--
-- Fuel: the search takes the height of a node, the coders the length of the string and the digits
-- of a number the number itself; each round uses at least as much of what it measures.
--
-- The easing equations take the operations on numbers and the functions of Math as `Numbers`; what is
-- said of their arithmetic, `NumberLaws`, leaves out whatever rounding may break, as the regrouping of
-- a sum, and takes the two zeros for one.
--
-- The calls of jQuery and the browser that compute or measure a style are parameters of their modules,
-- as are the functions of the language that read and write a number in floating point.
--
-- Not modelled: the branches of one browser, where a style attribute is an object or a filter is
-- dropped; the setting up of a script, as the copies of jQuery's own functions under other names; the
-- copies of jQuery, Underscore and prettify; and the Scala and Java samples beside the site. Texts of
-- headings hold no markup, and a page has one container for the list, as the pages of the site have.
pub mod Common
pub mod Js
pub mod Doctools
pub mod Toc
pub mod Site
pub mod Effects
