-- ===== src/Search.antt =====
-- internal/search: the query language, its planner, and the fields that a document is searched by.
pub mod Query
pub mod Glob
pub mod Lexer
pub mod Parser
pub mod Json
pub mod Flatten
pub mod Merge
pub mod Sets
pub mod Plan
pub mod Index
pub mod Engine
pub mod Registry
pub mod Results
pub mod Readable
mod Tests
