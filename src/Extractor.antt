-- ===== src/Extractor.antt =====
-- extractor/extractor.go, one module for each part of an extraction.
pub mod Folder
pub mod Filename
pub mod Pull
pub mod Prune
pub mod Bundle
pub mod Publish
pub mod Run
