-- ===== src/Domain.antt =====
-- src/domain.cpp, class `Domain`: the state and its mutex, the updates, the reads and the plannings.
pub mod State
pub mod Insertions
pub mod Updates
pub mod Rows
pub mod Reads
pub mod Removal
pub mod Ready
pub mod Planning
pub mod Mutex
pub mod Deadlock
pub mod JobInsertion
pub mod Atomicity
pub mod StartTime
pub mod RowReading
pub mod Frame
pub mod Switching
pub mod ReadBack
pub mod Series
pub mod Journal
