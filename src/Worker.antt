-- ===== src/Worker.antt =====
-- internal/worker: the handlers between the parser, the caches and the backend.
pub mod Returns
pub mod FromText
pub mod State
pub mod Entities
pub mod Movement
pub mod Events
pub mod Markers
pub mod Commands
pub mod Asked
pub mod Atomic
pub mod Players
pub mod Exported
pub mod References
pub mod Resolution
pub mod Kills
