-- ===== src/Replay.antt =====
-- packages/journal-replay/src/index.ts: the inspection of a journal and the
-- replay of its sessions.
pub mod Types
pub mod Log
pub mod Lifecycle
pub mod Payload
pub mod State
pub mod Session
pub mod Keeps
pub mod Lines
pub mod Events
pub mod Typed
pub mod Reading
pub mod Groups
pub mod Inspect
pub mod Single
pub mod Bounds
pub mod Verdict
pub mod Parsing
pub mod ReadLines
pub mod Limits
pub mod Shared
pub mod Report
pub mod Counts
pub mod Partition
pub mod Shares
pub mod Anchors
mod Tests
mod InspectTests
