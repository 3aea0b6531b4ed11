-- ===== src/Positions.antt =====
-- src/core/positions.js: position keys for ordered lists
pub mod Digits
pub mod Integer
pub mod Counting
pub mod Midpoint
pub mod Between
pub mod Keys
pub mod Valid
pub mod Built
pub mod Under
pub mod Over
pub mod Inside
pub mod Spelled
pub mod Promise
pub mod Compare
pub mod Many
