-- ===== src/Doc.antt =====
-- core/doc.js: a store's state, its records' clocks, and the rule that decides every change.
pub mod Clocks
pub mod State
pub mod Remove
pub mod Call
pub mod Whole
pub mod Enter
pub mod Inside
pub mod Run
pub mod Trial
pub mod Prune
pub mod Retention
pub mod Touch
pub mod Blocks
pub mod Frame
pub mod Tracked
pub mod Undo
pub mod Rollback
pub mod Decide
pub mod Field
pub mod Newest
