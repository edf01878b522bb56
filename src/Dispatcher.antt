-- ===== src/Dispatcher.antt =====
-- internal/dispatcher/dispatcher.go: commands, their handlers, and the buffers between them.
pub mod State
pub mod Actions
pub mod Order
pub mod Handled
pub mod Gates
