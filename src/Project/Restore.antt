-- ===== src/Project/Restore.antt =====
-- Re-inserting an entity with the id it had: the `restore` half of engine/src/model/project.cpp.
use onebeat.Prelude.{Bool, true, false, not, ◌&&◌, if◌then◌else◌}
use onebeat.Prelude.Map.{Map, emplace, assign, erase, adjust, has}
use onebeat.Notes.{NoteSequence, empty}
use onebeat.Ids.{EntityKind, TypedId, InstrumentId, PatternId, raw_valid}
use onebeat.Ids.Order.{id_key}
use onebeat.Changes.{ChangeType, ChangeField}
use onebeat.Entities.{Instrument, Pattern, ArrangementLane, Clip, MixerTrack}
use onebeat.Project.{Project, emit, no_raw}

-- The id is valid, and no entity of the table has it.
abbrev pub insertable : {V : Type 0} {K : EntityKind} → TypedId K → Map (TypedId K) V → Bool
insertable id m = raw_valid id.raw && not (has id m)

unfoldable pub restore_instrument : Project → Instrument → Project × Bool
unfolding emit
restore_instrument p instrument =
    if insertable instrument.id p.instruments
    then (
      emit (record p { instruments = emplace instrument.id instrument p.instruments })
          ChangeType.added EntityKind.instrument instrument.id.raw ChangeField.all no_raw,
      true,
    )
    else (p, false)

unfoldable pub restore_pattern : Project → Pattern → Project × Bool
unfolding emit
restore_pattern p pattern =
    if insertable pattern.id p.patterns
    then (
      emit (record p { patterns = emplace pattern.id pattern p.patterns }) ChangeType.added
          EntityKind.pattern pattern.id.raw ChangeField.all no_raw,
      true,
    )
    else (p, false)

unfoldable pub restore_lane : Project → ArrangementLane → Project × Bool
unfolding emit
restore_lane p lane =
    if insertable lane.id p.lanes
    then (
      emit (record p { lanes = emplace lane.id lane p.lanes }) ChangeType.added
          EntityKind.arrangement_lane lane.id.raw ChangeField.all no_raw,
      true,
    )
    else (p, false)

unfoldable pub restore_clip : Project → Clip → Project × Bool
unfolding emit
restore_clip p clip =
    if insertable clip.id p.clips
    then (
      emit (record p { clips = emplace clip.id clip p.clips }) ChangeType.added EntityKind.clip
          clip.id.raw ChangeField.all clip.lane.raw,
      true,
    )
    else (p, false)

unfoldable pub restore_mixer_track : Project → MixerTrack → Project × Bool
unfolding emit
restore_mixer_track p track =
    if insertable track.id p.mixer_tracks
    then (
      emit (record p { mixer_tracks = emplace track.id track p.mixer_tracks }) ChangeType.added
          EntityKind.mixer_track track.id.raw ChangeField.all no_raw,
      true,
    )
    else (p, false)

-- The sequence of one instrument replaced, or erased if the new one is empty.
abbrev pub put_sequence : InstrumentId → NoteSequence → Pattern → Pattern
put_sequence i sequence pattern = record pattern {
  sequences =
      if empty sequence then erase i pattern.sequences else assign i sequence pattern.sequences;
}

unfoldable pub restore_sequence : Project → PatternId → InstrumentId → NoteSequence → Project × Bool
unfolding emit
restore_sequence p pattern_id instrument_id sequence =
    if not (has pattern_id p.patterns)
    then (p, false)
    else if not (has instrument_id p.instruments)
    then (p, false)
    else (
      emit
          (record p {
            patterns = adjust pattern_id (put_sequence instrument_id sequence) p.patterns;
          })
          ChangeType.modified EntityKind.pattern pattern_id.raw ChangeField.notes instrument_id.raw,
      true,
    )
