-- ===== src/Effects.antt =====
-- akka_doc/_static/effects.core.js and effects.highlight.js: the effects that the pages load. The
-- flash of a heading uses Flash and Colors; the others are offered to the scripts of a page.
pub mod Names
pub mod Pattern
pub mod Colors
pub mod Flash
pub mod Easing
pub mod Verbs
pub mod Styles
pub mod Classes
pub mod Wrapper
pub mod Units
