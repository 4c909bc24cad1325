-- ===== src/Docparse.antt =====
-- crates/docparse: the extraction of text from documents.
pub mod Extractors
pub mod Html
pub mod Whitespace
pub mod Pages
pub mod Docx
pub mod Extract
pub mod Formats
pub mod Cli
