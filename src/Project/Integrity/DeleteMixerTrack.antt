-- ===== src/Project/Integrity/DeleteMixerTrack.antt =====
-- `deleteMixerTrack` of engine/src/model/project.cpp.
pub mod Kept
pub mod Effect
pub mod Tracks
