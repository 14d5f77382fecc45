-- ===== src/Parser.antt =====
-- parser.py: the checks that decide which SQL text may be run, over sqlglot's syntax trees.
pub mod DenyLists
pub mod Scope
pub mod Stars
pub mod Functions
pub mod Shape
pub mod Tables
pub mod Validate
pub mod Sample
mod Tests
pub mod Limits
