-- ===== src/Memory.antt =====
-- internal/storage/memory: the backend that keeps a mission in memory and exports it.
pub mod State
pub mod Lifecycle
pub mod Record
pub mod Markers
pub mod Focus
pub mod Metadata
pub mod Trace
pub mod Histories
pub mod MarkerLinks
pub mod MarkerHistory
pub mod FocusOrder
pub mod Missions
pub mod Storage
pub mod Export
pub mod Keys
