-- ===== src/Store.antt =====
-- server/store.js: the authority, which decides every op and keeps the state.
pub mod Throttle
pub mod State
pub mod Queue
pub mod Replicas
pub mod Log
pub mod Land
pub mod Compact
pub mod Apply
pub mod Judged
pub mod Refuse
pub mod Commits
pub mod Writes
pub mod Session
pub mod Keeps
pub mod Versions
pub mod Logged
pub mod Outbox
pub mod Forgetting
pub mod Remembered
pub mod Admitted
pub mod Taken
pub mod Replay
pub mod Stored
pub mod Heard
pub mod Reach
pub mod Always
pub mod CaughtUp
