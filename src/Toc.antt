-- ===== src/Toc.antt =====
-- akka_doc/_static/toc.js: the plugin that lists the headings of a page.
pub mod Outline
pub mod Numbering
pub mod Anchor
pub mod Build
mod Tests
