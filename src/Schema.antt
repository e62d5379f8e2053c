-- ===== src/Schema.antt =====
-- pkg/apiserver/schema: structural schemas and the algorithms on them.
pub mod Json
pub mod Structural
pub mod Options
pub mod Pruning
pub mod Defaulting
pub mod ListType
pub mod Visitor
pub mod Completeness
pub mod Unfolding
pub mod Validation
