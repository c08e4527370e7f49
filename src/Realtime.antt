-- ===== src/Realtime.antt =====
-- What the audio thread shares with other threads: engine/src/core/rt.
pub mod Publisher
pub mod Ring
