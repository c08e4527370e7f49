-- ===== src/Project/Modify.antt =====
-- Edits in place: the `update` half of engine/src/model/project.h. A mutator is a function on the entity.
use onebeat.Prelude.{Bool, true, false, not, none, some, [], if◌then◌else◌}
use onebeat.Prelude.Map.{find, assign, erase, adjust, has}
use onebeat.Notes.{NoteSequence, empty}
use onebeat.Ids.{EntityKind, InstrumentId, PatternId, ArrangementLaneId, ClipId, MixerTrackId}
use onebeat.Ids.Order.{id_key}
use onebeat.Changes.{ChangeType, ChangeField}
use onebeat.Entities.{Instrument, Pattern, ArrangementLane, Clip, MixerTrack}
use onebeat.Project.{Project, emit, no_raw}

unfoldable pub update_instrument :
    Project → InstrumentId → ChangeField → (Instrument → Instrument) → Project × Bool
unfolding emit
update_instrument p id field mutator =
    if has id p.instruments
    then (
      emit (record p { instruments = adjust id mutator p.instruments }) ChangeType.modified
          EntityKind.instrument id.raw field no_raw,
      true,
    )
    else (p, false)

unfoldable pub update_pattern :
    Project → PatternId → ChangeField → (Pattern → Pattern) → Project × Bool
unfolding emit
update_pattern p id field mutator =
    if has id p.patterns
    then (
      emit (record p { patterns = adjust id mutator p.patterns }) ChangeType.modified
          EntityKind.pattern id.raw field no_raw,
      true,
    )
    else (p, false)

unfoldable pub update_lane :
    Project → ArrangementLaneId → ChangeField → (ArrangementLane → ArrangementLane) → Project × Bool
unfolding emit
update_lane p id field mutator =
    if has id p.lanes
    then (
      emit (record p { lanes = adjust id mutator p.lanes }) ChangeType.modified
          EntityKind.arrangement_lane id.raw field no_raw,
      true,
    )
    else (p, false)

unfoldable pub update_clip : Project → ClipId → ChangeField → (Clip → Clip) → Project × Bool
unfolding emit
update_clip p id field mutator =
    if has id p.clips
    then (
      emit (record p { clips = adjust id mutator p.clips }) ChangeType.modified EntityKind.clip
          id.raw field no_raw,
      true,
    )
    else (p, false)

unfoldable pub update_mixer_track :
    Project → MixerTrackId → ChangeField → (MixerTrack → MixerTrack) → Project × Bool
unfolding emit
update_mixer_track p id field mutator =
    if has id p.mixer_tracks
    then (
      emit (record p { mixer_tracks = adjust id mutator p.mixer_tracks }) ChangeType.modified
          EntityKind.mixer_track id.raw field no_raw,
      true,
    )
    else (p, false)

-- `sequences[instrument]` is created if it is absent, edited, and erased if it is then empty.
abbrev pub edit_sequence : InstrumentId → (NoteSequence → NoteSequence) → Pattern → Pattern
edit_sequence i mutator pattern =
    let before : NoteSequence = elim (find i pattern.sequences) [
      | none ↦ record { notes = [] }
      | some s ↦ s
    ] in
    let after = mutator before in
    record pattern {
      sequences =
          if empty after then erase i pattern.sequences else assign i after pattern.sequences;
    }

unfoldable pub update_sequence :
    Project → PatternId → InstrumentId → (NoteSequence → NoteSequence) → Project × Bool
unfolding emit
update_sequence p pattern_id instrument_id mutator =
    if not (has pattern_id p.patterns)
    then (p, false)
    else if not (has instrument_id p.instruments)
    then (p, false)
    else (
      emit
          (record p {
            patterns = adjust pattern_id (edit_sequence instrument_id mutator) p.patterns;
          })
          ChangeType.modified EntityKind.pattern pattern_id.raw ChangeField.notes instrument_id.raw,
      true,
    )
