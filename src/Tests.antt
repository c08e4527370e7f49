-- ===== src/Tests.antt =====
-- A small project and its neighbours, and each theorem applied to concrete data.
mod Data
mod Sound
mod NoteRuns
mod IdRuns
mod Deletions
mod Creations
mod Edits
mod Histories
mod Graphs
mod Publishing
mod Messages
mod Playback
mod Flattening
