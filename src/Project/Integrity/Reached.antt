-- ===== src/Project/Integrity/Reached.antt =====
-- The projects that the operations of engine/src/model/project.cpp lead to.
use onebeat.Prelude.{◌≡◌, ◌≢◌, true, Option, none, some, String}
use onebeat.Prelude.Int.{pos, ◌≤ℤ◌}
use onebeat.Prelude.Map.{find, has}
use onebeat.Notes.{Ticks, NoteSequence}
use onebeat.Ids.{
  EntityKind, IdGenerator, InstrumentId, PatternId, ArrangementLaneId, ClipId, MixerTrackId,
  next_id,
}
use onebeat.Ids.Order.{id_key}
use onebeat.Changes.{ChangeField}
use onebeat.Entities.{
  PluginRef, ClipSource, Instrument, Pattern, ArrangementLane, Clip, MixerTrack, TransportState,
  ProjectMeta,
}
use onebeat.Project.{
  Project, Preferences, new_project, mint_id, set_preferences, set_transport, set_meta,
}
use onebeat.Project.Create.{
  create_lane, create_pattern, create_clip, create_mixer_track, create_instrument,
}
use onebeat.Project.Delete.{
  delete_clip, delete_pattern, delete_lane, delete_instrument, delete_mixer_track,
}
use onebeat.Project.Modify.{
  update_instrument, update_pattern, update_lane, update_clip, update_mixer_track, update_sequence,
}
use onebeat.Project.Restore.{
  restore_instrument, restore_pattern, restore_lane, restore_clip, restore_mixer_track,
  restore_sequence,
}
use onebeat.Project.Integrity.{
  Integrity, InstrumentOk, PatternOk, LaneOk, ClipOk, SlotsOk, WindowOk,
}
use onebeat.Project.Integrity.EditSequence.{NotesOk}

-- Calls of the public operations one after the other, all but `adopt`, from a new project on. Each
-- creation mints an id that is not taken, a clip has a place and a window that are allowed, and edits keep
-- notes valid and in order. A mutator keeps what is asked of its entity; that of a lane keeps its group and
-- order, and that of a mixer track its output and chain. What is restored is as it must be.
pub data Reached (start : IdGenerator) : Project → Type 0 where
  started : Reached start (new_project start)
  lane_created :
      {p : Project} (name : String)
      → Reached start p
      → find (create_lane p name).1 p.lanes ≡ none
      → Reached start (create_lane p name).0
  pattern_created :
      {p : Project} (name : String) (length : Ticks)
      → Reached start p
      → find (create_pattern p name length).1 p.patterns ≡ none
      → Reached start (create_pattern p name length).0
  clip_created :
      {p : Project} (lane : ArrangementLaneId) (source : ClipSource) (at length : Ticks)
      → Reached start p
      → find (next_id {K = EntityKind.clip} p.generator).0 p.clips ≡ none
      → pos 0 ≤ℤ at
      → pos 0 ≤ℤ length
      → WindowOk length source
      → Reached start (create_clip p lane source at length).0
  track_created :
      {p : Project} (name : String) (output : Option MixerTrackId)
      → Reached start p
      → find (create_mixer_track p name output).1 p.mixer_tracks ≡ none
      → Reached start (create_mixer_track p name output).0
  instrument_created :
      {p : Project} (name : String) (plugin : PluginRef)
      → Reached start p
      → find (next_id {K = EntityKind.instrument} p.generator).0 p.instruments ≡ none
      → find
          (create_mixer_track
            (record p { generator = (next_id {K = EntityKind.instrument} p.generator).1 })
            name
            (some p.master)).1
          p.mixer_tracks
        ≡ none
      → Reached start (create_instrument p name plugin).0
  sequence_edited :
      {p : Project} (pattern : PatternId) (instrument : InstrumentId)
      (edit : NoteSequence → NoteSequence)
      → Reached start p
      → ((s : NoteSequence) → NotesOk s → NotesOk (edit s))
      → Reached start (update_sequence p pattern instrument edit).0
  sequence_restored :
      {p : Project} (pattern : PatternId) (instrument : InstrumentId) (s : NoteSequence)
      → Reached start p
      → NotesOk s
      → Reached start (restore_sequence p pattern instrument s).0
  pattern_deleted :
      {p : Project} (id : PatternId) → Reached start p → Reached start (delete_pattern p id).0
  lane_deleted :
      {p : Project} (id : ArrangementLaneId) → Reached start p → Reached start (delete_lane p id).0
  instrument_deleted :
      {p : Project} (id : InstrumentId) → Reached start p → Reached start (delete_instrument p id).0
  track_deleted :
      {p : Project} (id : MixerTrackId)
      → Reached start p
      → Reached start (delete_mixer_track p id).0
  clip_deleted : {p : Project} (id : ClipId) → Reached start p → Reached start (delete_clip p id).0
  id_minted : {p : Project} (K : EntityKind) → Reached start p → Reached start (mint_id K p).1
  preferences_set :
      {p : Project} (preferences : Preferences)
      → Reached start p
      → Reached start (set_preferences p preferences)
  transport_set :
      {p : Project} (transport : TransportState)
      → Reached start p
      → Reached start (set_transport p transport)
  meta_set : {p : Project} (meta : ProjectMeta) → Reached start p → Reached start (set_meta p meta)
  instrument_updated :
      {p : Project} (id : InstrumentId) (field : ChangeField) (f : Instrument → Instrument)
      → Reached start p
      → ((i : Instrument) → InstrumentOk p.mixer_tracks i → InstrumentOk p.mixer_tracks (f i))
      → Reached start (update_instrument p id field f).0
  pattern_updated :
      {p : Project} (id : PatternId) (field : ChangeField) (f : Pattern → Pattern)
      → Reached start p
      → ((q : Pattern) → PatternOk p.instruments q → PatternOk p.instruments (f q))
      → Reached start (update_pattern p id field f).0
  lane_updated :
      {p : Project} (id : ArrangementLaneId) (field : ChangeField)
      (f : ArrangementLane → ArrangementLane)
      → Reached start p
      → ((l : ArrangementLane) → (f l).group_id ≡ l.group_id)
      → ((l : ArrangementLane) → (f l).order ≡ l.order)
      → Reached start (update_lane p id field f).0
  clip_updated :
      {p : Project} (id : ClipId) (field : ChangeField) (f : Clip → Clip)
      → Reached start p
      → ((c : Clip) → ClipOk p c → ClipOk p (f c))
      → Reached start (update_clip p id field f).0
  track_updated :
      {p : Project} (id : MixerTrackId) (field : ChangeField) (f : MixerTrack → MixerTrack)
      → Reached start p
      → ((t : MixerTrack) → (f t).output ≡ t.output)
      → ((t : MixerTrack) → (f t).effects ≡ t.effects)
      → Reached start (update_mixer_track p id field f).0
  instrument_restored :
      {p : Project} (i : Instrument)
      → Reached start p
      → InstrumentOk p.mixer_tracks i
      → Reached start (restore_instrument p i).0
  pattern_restored :
      {p : Project} (q : Pattern)
      → Reached start p
      → PatternOk p.instruments q
      → Reached start (restore_pattern p q).0
  lane_restored :
      {p : Project} (l : ArrangementLane)
      → Reached start p
      → LaneOk p.lanes l.id l
      → ((k : ArrangementLaneId) (m : ArrangementLane)
          → find k p.lanes ≡ some m
          → m.order ≢ l.order)
      → Reached start (restore_lane p l).0
  clip_restored :
      {p : Project} (c : Clip) → Reached start p → ClipOk p c → Reached start (restore_clip p c).0
  track_restored :
      {p : Project} (t : MixerTrack) (target : MixerTrackId)
      → Reached start p
      → t.output ≡ some target
      → has target p.mixer_tracks ≡ true
      → SlotsOk t.effects
      → Reached start (restore_mixer_track p t).0
