-- ===== src/Examples.antt =====
-- Concrete missions, and the theorems of the other modules applied to them.
mod Data
mod Parsing
mod Streaming
mod Sessions
mod Writing
mod Recording
mod Exporting
mod Handling
mod Dispatching
