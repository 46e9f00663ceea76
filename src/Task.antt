-- ===== src/Task.antt =====
-- stdlib/task: the life of a tree of contexts.
pub mod Context
