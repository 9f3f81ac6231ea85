-- ===== src/Doctools.antt =====
-- akka_doc/_static/doctools.js: the script that every page of the site loads.
pub mod Query
pub mod Highlight
pub mod IndexTable
pub mod Catalog
pub mod Context
pub mod Location
pub mod Search
pub mod Session
