-- ===== src/Project/Impact.antt =====
-- What a deletion would destroy: the queries and impact reports of engine/src/model/project.cpp.
use onebeat.Prelude.{
  ℕ, ◌+◌, Bool, true, false, not, ◌&&◌, none, some, List, [], ◌∷◌, map, any, length,
}
use onebeat.Prelude.Map.{Map, find, keys_where, has}
use onebeat.Notes.{NoteSequence}
use onebeat.Ids.{
  InstrumentId, PatternId, ArrangementLaneId, ClipId, MixerTrackId, EffectId, EntityKind, TypedId,
}
use onebeat.Ids.Order.{id_key, id_eq}
use onebeat.Entities.{
  Instrument, Pattern, MixerTrack, ClipSource, pattern_source, audio_source, automation_source,
  TargetKind, OutputRoute,
}
use onebeat.Project.{Project}

-- `std::find` in a vector of ids.
abbrev pub mem_id : {K : EntityKind} → TypedId K → List (TypedId K) → Bool
mem_id id ids = any (λ i. id_eq i id) ids

-- The tests of the loops, by the source that a clip holds.
abbrev pub uses_pattern : PatternId → ClipSource → Bool
uses_pattern id (pattern_source p) = id_eq p id
uses_pattern id (audio_source a) = false
uses_pattern id (automation_source a) = false

abbrev pub is_instrument_target : TargetKind → Bool
is_instrument_target TargetKind.instrument = true
is_instrument_target TargetKind.mixer_track = false
is_instrument_target TargetKind.effect = false

abbrev pub is_effect_target : TargetKind → Bool
is_effect_target TargetKind.instrument = false
is_effect_target TargetKind.mixer_track = false
is_effect_target TargetKind.effect = true

abbrev pub automates_instrument : InstrumentId → ClipSource → Bool
automates_instrument id (pattern_source p) = false
automates_instrument id (audio_source a) = false
automates_instrument id (automation_source a) =
    is_instrument_target a.target_kind && id_eq a.instrument id

-- An audio clip that plays into the track, or a curve that drives the track or its chain.
abbrev pub touches_track : MixerTrackId → ClipSource → Bool
touches_track id (pattern_source p) = false
touches_track id (audio_source a) = id_eq a.destination id
touches_track id (automation_source a) =
    not (is_instrument_target a.target_kind) && id_eq a.mixer_track id

abbrev pub automates_effect : MixerTrackId → EffectId → ClipSource → Bool
automates_effect track effect (pattern_source p) = false
automates_effect track effect (audio_source a) = false
automates_effect track effect (automation_source a) =
    is_effect_target a.target_kind && (id_eq a.mixer_track track && id_eq a.effect effect)

unfoldable pub clips_on_lane : Project → ArrangementLaneId → List ClipId
clips_on_lane p id = keys_where (λ _ clip. id_eq clip.lane id) p.clips

unfoldable pub clips_using_pattern : Project → PatternId → List ClipId
clips_using_pattern p id = keys_where (λ _ clip. uses_pattern id clip.source) p.clips

pub pattern_usage_count : Project → PatternId → ℕ
unfolding clips_using_pattern
pattern_usage_count p id = length (clips_using_pattern p id)

pub record InstrumentImpact : Type 0 where
  pub patterns : List PatternId
  pub note_count : ℕ
  pub pattern_clips : List ClipId
  pub clips : List ClipId
  pub tracks : List MixerTrackId

-- The notes that the patterns hold for an instrument.
notes_of : InstrumentId → Map PatternId Pattern → ℕ
notes_of id [] = 0
notes_of id ((k, p) ∷ rest) =
    elim (find id p.sequences) [ none ↦ 0 | some s ↦ length s.notes ] + notes_of id rest

abbrev places_any : List PatternId → ClipSource → Bool
places_any ids (pattern_source p) = mem_id p ids
places_any ids (audio_source a) = false
places_any ids (automation_source a) = false

unfoldable pub instrument_impact : Project → InstrumentId → InstrumentImpact
unfolding notes_of
instrument_impact p id =
    let patterns = keys_where (λ _ pattern. has id pattern.sequences) p.patterns in
    record {
      patterns = patterns;
      note_count = notes_of id p.patterns;
      pattern_clips = keys_where (λ _ clip. places_any patterns clip.source) p.clips;
      clips = keys_where (λ _ clip. automates_instrument id clip.source) p.clips;
      tracks = elim (find id p.instruments) [ none ↦ [] | some i ↦ map (λ r. r.track) i.routing ];
    }

pub record PatternImpact : Type 0 where
  pub clips : List ClipId
  pub note_count : ℕ

note_total : Map InstrumentId NoteSequence → ℕ
note_total [] = 0
note_total ((i, s) ∷ rest) = length s.notes + note_total rest

pub pattern_impact : Project → PatternId → PatternImpact
unfolding note_total clips_using_pattern
pattern_impact p id = record {
  clips = clips_using_pattern p id;
  note_count = elim (find id p.patterns) [ none ↦ 0 | some pattern ↦ note_total pattern.sequences ];
}

pub lane_impact : Project → ArrangementLaneId → List ClipId
unfolding clips_on_lane
lane_impact p id = clips_on_lane p id

pub record MixerTrackImpact : Type 0 where
  pub instruments : List InstrumentId
  pub inputs : List MixerTrackId
  pub clips : List ClipId

abbrev pub outputs_to : MixerTrackId → MixerTrack → Bool
outputs_to id track = elim track.output [ none ↦ false | some o ↦ id_eq o id ]

abbrev pub routes_to : MixerTrackId → Instrument → Bool
routes_to id instrument = any (λ (r : OutputRoute). id_eq r.track id) instrument.routing

unfoldable pub mixer_track_impact : Project → MixerTrackId → MixerTrackImpact
mixer_track_impact p id = record {
  instruments = keys_where (λ _ instrument. routes_to id instrument) p.instruments;
  inputs = keys_where (λ _ track. outputs_to id track) p.mixer_tracks;
  clips = keys_where (λ _ clip. touches_track id clip.source) p.clips;
}

pub effect_impact : Project → MixerTrackId → EffectId → List ClipId
effect_impact p track effect =
    keys_where (λ _ clip. automates_effect track effect clip.source) p.clips
