-- ===== src/Recorder.antt =====
-- cmd/ocap_recorder: a new mission (main.go) and the saving of one (mission_save.go).
pub mod Lifecycle
pub mod Saves
pub mod Sessions
