-- ===== src/Dump.antt =====
-- The parser of MediaWiki dumps, src/extract/dump_parser.cc: a state machine over the events of a
-- SAX parser.
pub mod Citations
pub mod State
pub mod Handlers
pub mod Run
pub mod Extract
