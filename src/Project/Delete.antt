-- ===== src/Project/Delete.antt =====
-- The deletion of entities, with its cascades: engine/src/model/project.cpp.
use onebeat.Prelude.{Bool, true, false, not, none, some, List, [], ◌∷◌, map, if◌then◌else◌}
use onebeat.Prelude.Map.{Map, find, erase, adjust, map_entries, has}
use onebeat.Ids.{EntityKind, InstrumentId, PatternId, ArrangementLaneId, ClipId, MixerTrackId}
use onebeat.Ids.Order.{id_key, id_eq}
use onebeat.Changes.{ChangeType, ChangeField}
use onebeat.Entities.{
  Instrument, Pattern, ArrangementLane, Clip, MixerTrack, OutputRoute, ClipSource, pattern_source,
  audio_source, automation_source,
}
use onebeat.Project.{Project, emit, no_raw}
use onebeat.Project.Impact.{
  clips_on_lane, clips_using_pattern, instrument_impact, mixer_track_impact,
}

unfoldable pub delete_clip : Project → ClipId → Project × Bool
unfolding emit
delete_clip p id = elim (find id p.clips) [
  | none ↦ (p, false)
  | some clip ↦ (
    emit (record p { clips = erase id p.clips }) ChangeType.removed EntityKind.clip id.raw
        ChangeField.all clip.lane.raw,
    true,
  )
]

-- `for (const ClipId clip_id : ids) deleteClip(clip_id);`
unfoldable pub delete_clips : Project → List ClipId → Project
delete_clips p [] = p
delete_clips p (id ∷ ids) = delete_clips (delete_clip p id).0 ids

abbrev pub without_sequence : InstrumentId → Pattern → Pattern
without_sequence id pattern = record pattern { sequences = erase id pattern.sequences }

-- The event of a pattern that held a sequence.
unfoldable pub announce_erasure : Project → InstrumentId → PatternId → Pattern → Project
announce_erasure p id k pattern =
    if has id pattern.sequences
    then emit p ChangeType.modified EntityKind.pattern k.raw ChangeField.notes id.raw
    else p

unfoldable pub announce_erased : Project → InstrumentId → Map PatternId Pattern → Project
announce_erased p id [] = p
announce_erased p id ((k, pattern) ∷ rest) =
    announce_erased (announce_erasure p id k pattern) id rest

-- The loop over the patterns: every one loses its sequence of the instrument.
unfoldable pub erase_sequences : Project → InstrumentId → Project
erase_sequences p id =
    announce_erased
      (record p { patterns = map_entries (λ _ pattern. without_sequence id pattern) p.patterns }) id
      p.patterns

unfoldable pub delete_instrument : Project → InstrumentId → Project × Bool
unfolding emit
delete_instrument p id =
    if not (has id p.instruments)
    then (p, false)
    else let p1 = erase_sequences p id in
      let p2 = delete_clips p1 (instrument_impact p1 id).clips in
      (
        emit (record p2 { instruments = erase id p2.instruments }) ChangeType.removed
            EntityKind.instrument id.raw ChangeField.all no_raw,
        true,
      )

unfoldable pub delete_pattern : Project → PatternId → Project × Bool
unfolding emit
delete_pattern p id =
    if not (has id p.patterns)
    then (p, false)
    else let p1 = delete_clips p (clips_using_pattern p id) in
      (
        emit (record p1 { patterns = erase id p1.patterns }) ChangeType.removed EntityKind.pattern
            id.raw ChangeField.all no_raw,
        true,
      )

abbrev pub in_group : ArrangementLaneId → ArrangementLane → Bool
in_group id lane = elim lane.group_id [ none ↦ false | some g ↦ id_eq g id ]

abbrev pub release_lane : ArrangementLaneId → ArrangementLane → ArrangementLane
release_lane id lane = if in_group id lane then record lane { group_id = none } else lane

unfoldable pub announce_release :
    Project → ArrangementLaneId → ArrangementLaneId → ArrangementLane → Project
announce_release p id k lane =
    if in_group id lane
    then emit p ChangeType.modified EntityKind.arrangement_lane k.raw ChangeField.group id.raw
    else p

unfoldable pub announce_released :
    Project → ArrangementLaneId → Map ArrangementLaneId ArrangementLane → Project
announce_released p id [] = p
announce_released p id ((k, lane) ∷ rest) = announce_released (announce_release p id k lane) id rest

unfoldable pub release_group : Project → ArrangementLaneId → Project
release_group p id =
    announce_released (record p { lanes = map_entries (λ _ lane. release_lane id lane) p.lanes }) id
      p.lanes

unfoldable pub delete_lane : Project → ArrangementLaneId → Project × Bool
unfolding emit
delete_lane p id =
    if not (has id p.lanes)
    then (p, false)
    else let p1 = delete_clips p (clips_on_lane p id) in
      let p2 = release_group p1 id in
      (
        emit (record p2 { lanes = erase id p2.lanes }) ChangeType.removed
            EntityKind.arrangement_lane id.raw ChangeField.all no_raw,
        true,
      )

abbrev pub repoint_route : MixerTrackId → MixerTrackId → OutputRoute → OutputRoute
repoint_route id master route =
    if id_eq route.track id then record route { track = master } else route

abbrev pub repoint_instrument : MixerTrackId → MixerTrackId → Instrument → Instrument
repoint_instrument id master i = record i { routing = map (repoint_route id master) i.routing }

-- The loop over `impact.instruments`, and one round of it.
unfoldable pub repoint_round : Project → MixerTrackId → InstrumentId → Project
repoint_round p id i =
    if has i p.instruments
    then emit (record p { instruments = adjust i (repoint_instrument id p.master) p.instruments })
        ChangeType.modified EntityKind.instrument i.raw ChangeField.routing p.master.raw
    else p

unfoldable pub repoint_instruments : Project → MixerTrackId → List InstrumentId → Project
repoint_instruments p id [] = p
repoint_instruments p id (i ∷ is') = repoint_instruments (repoint_round p id i) id is'

abbrev pub repoint_track : MixerTrackId → MixerTrack → MixerTrack
repoint_track master track = record track { output = some master }

-- The loop over `impact.inputs`, and one round of it.
unfoldable pub repoint_input : Project → MixerTrackId → Project
repoint_input p t =
    if has t p.mixer_tracks
    then emit (record p { mixer_tracks = adjust t (repoint_track p.master) p.mixer_tracks })
        ChangeType.modified EntityKind.mixer_track t.raw ChangeField.output p.master.raw
    else p

unfoldable pub repoint_inputs : Project → List MixerTrackId → Project
repoint_inputs p [] = p
repoint_inputs p (t ∷ ts) = repoint_inputs (repoint_input p t) ts

abbrev pub repoint_clip : MixerTrackId → Clip → Clip
repoint_clip master clip = record clip {
  source = elim clip.source [
    | audio_source a ↦ audio_source (record a { destination = master })
    | pattern_source q ↦ pattern_source q
    | automation_source a ↦ automation_source a
  ];
}

abbrev pub is_audio : ClipSource → Bool
is_audio (pattern_source q) = false
is_audio (audio_source a) = true
is_audio (automation_source a) = false

-- One round of the loop over `impact.clips`: an audio clip is re-pointed, any other goes.
unfoldable pub resolve_clip : Project → ClipId → Project
unfolding emit
resolve_clip p c = elim (find c p.clips) [
  | none ↦ p
  | some clip ↦
      if is_audio clip.source
      then emit (record p { clips = adjust c (repoint_clip p.master) p.clips }) ChangeType.modified
          EntityKind.clip c.raw ChangeField.source p.master.raw
      else (delete_clip p c).0
]

unfoldable pub resolve_clips : Project → List ClipId → Project
resolve_clips p [] = p
resolve_clips p (c ∷ cs) = resolve_clips (resolve_clip p c) cs

unfoldable pub delete_mixer_track : Project → MixerTrackId → Project × Bool
unfolding emit
delete_mixer_track p id =
    if id_eq id p.master
    then (p, false)
    else if not (has id p.mixer_tracks)
    then (p, false)
    else let impact = mixer_track_impact p id in
      let p1 = repoint_instruments p id impact.instruments in
      let p2 = repoint_inputs p1 impact.inputs in
      let p3 = resolve_clips p2 impact.clips in
      (
        emit (record p3 { mixer_tracks = erase id p3.mixer_tracks }) ChangeType.removed
            EntityKind.mixer_track id.raw ChangeField.all no_raw,
        true,
      )
