-- ===== src/Tracker.antt =====
-- internal/controller/tracker_controller.go and helpers.go, the controller of the trackers, by child:
-- the order of contributors, the writes of a tracker's status, its records, the paths that
-- contributors contest, what is asked of appliers, the withdrawal of contributors, the pass over the
-- active ones, and the reconciliation that calls them.
pub mod Samples
mod Tests
pub mod Order
pub mod Writes
pub mod Records
pub mod Conflicts
pub mod Appliers
pub mod Withdraw
pub mod Pass
pub mod Lifecycle
