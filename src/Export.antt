-- ===== src/Export.antt =====
-- internal/storage/memory/export/v1: the v1 JSON export, built whole (`Build`) or written entity by
-- entity (`Stream`).
pub mod Data
pub mod Frames
pub mod Names
pub mod Rows
pub mod Markers
pub mod Entities
pub mod Build
pub mod Json
pub mod Stream
pub mod Table
pub mod Metadata
pub mod Placing
pub mod Firelines
pub mod StreamBuild
pub mod Chronology
pub mod Gaps
pub mod Overflow
