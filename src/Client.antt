-- ===== src/Client.antt =====
-- client/list.js, an ordered list of records by the position key of each, and client/snapshot-fetch.js.
use lazy_storage.Base.{ℕ}
pub mod Longest
pub mod Slots
pub mod Links
pub mod Rising
pub mod Reconcile
pub mod Enough
pub mod Order
pub mod Placed
pub mod Splits
pub mod Wanted
pub mod Fetch
pub mod Fetched
pub mod Pending
pub mod Session
pub mod Shown
