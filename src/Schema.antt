-- ===== src/Schema.antt =====
-- schema/types.go: the types that the documents share.
pub mod Date
pub mod Range
pub mod Parse
