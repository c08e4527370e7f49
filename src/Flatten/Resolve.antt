-- ===== src/Flatten/Resolve.antt =====
-- `flatten` of engine/src/model/flattener.cpp, up to the events in ticks. What a `double` and a `float`
-- compute is a parameter.
pub mod Channels
pub mod Sound
pub mod Loops
use onebeat.Prelude.{
  ℕ, zero, suc, ◌+◌, ◌/◌, ◌%◌, Bool, true, false, not, ◌&&◌, ◌||◌, List, [], ◌∷◌, ◌++◌, map, Option,
  none, some, ◌==◌, if◌then◌else◌, length,
}
use onebeat.Prelude.Int.{ℤ, pos, pos_part, ◌+ℤ◌, ltb_ℤ, leb_ℤ, max_ℤ}
use onebeat.Prelude.Map.{Map, find}
use onebeat.Notes.{Ticks, Velocity, Note, NoteSequence, max_velocity}
use onebeat.Ids.{InstrumentId, ArrangementLaneId, ClipId, MixerTrackId, EffectId}
use onebeat.Ids.Order.{id_key, id_eq}
use onebeat.Entities.{
  Float, ParamId, ChannelSettings, Instrument, EffectSlot, MixerTrack, AutomationPoint, TargetKind,
  AutomationSource, Pattern, ClipSource, pattern_source, audio_source, automation_source, Clip,
  pattern_effective_length,
}
use onebeat.Project.{Project}
use onebeat.Project.Impact.{clips_on_lane}
use onebeat.Transport.{Doubles}
use onebeat.Flatten.{ResolvedNote, Occurrence, audible_lanes, collect_occurrences}

-- The casts from stored bits, and what a `float` computes.
pub record Floats (doubles : Doubles) : Type 0 where
  pub of_bits : ℕ → doubles.Double
  pub float_of_int : ℕ → Float
  pub float_div : Float → Float → Float
  pub float_mul : Float → Float → Float
  pub float_lt : Float → Float → Bool

pub record ResolvedParam : Type 0 where
  pub position : Ticks
  pub instrument : ℕ
  pub parameter : ℕ
  pub value : Float

pub record ResolvedEffectParam : Type 0 where
  pub position : Ticks
  pub effect : ℕ
  pub parameter : ℕ
  pub value : Float

pub record ResolvedAudio : Type 0 where
  pub start : Ticks
  pub channel : ℕ

-- The dense indices of instruments, audio clips and inserts.
pub record Indices : Type 0 where
  pub instruments : Map InstrumentId ℕ
  pub audio : Map ClipId ℕ
  pub effects : List (MixerTrackId × EffectId × ℕ)

abbrev pub number_instruments : ℕ → Map InstrumentId Instrument → Map InstrumentId ℕ
number_instruments next [] = []
number_instruments next ((id, i) ∷ rest) = (id, next) ∷ number_instruments (suc next) rest

abbrev pub is_audio : ClipSource → Bool
is_audio (pattern_source p) = false
is_audio (audio_source a) = true
is_audio (automation_source a) = false

abbrev pub number_audio : ℕ → Map ClipId Clip → Map ClipId ℕ
number_audio next [] = []
number_audio next ((id, clip) ∷ rest) =
    let numbered = number_audio (suc next) rest in
    let same = number_audio next rest in
    if is_audio clip.source then (id, next) ∷ numbered else same

abbrev pub number_slots : MixerTrackId → List EffectSlot → ℕ → List (MixerTrackId × EffectId × ℕ)
number_slots track [] next = []
number_slots track (slot ∷ slots) next =
    (track, slot.id, next) ∷ number_slots track slots (suc next)

abbrev pub number_effects : ℕ → Map MixerTrackId MixerTrack → List (MixerTrackId × EffectId × ℕ)
number_effects next [] = []
number_effects next ((id, track) ∷ rest) =
    number_slots id track.effects next ++ number_effects (next + length track.effects) rest

pub index_project : Project → Indices
index_project p = record {
  instruments = number_instruments 0 p.instruments;
  audio = number_audio (length p.instruments) p.clips;
  effects = number_effects 0 p.mixer_tracks;
}

-- `effect_index.find`; of two entries for one insert the map keeps the first.
pub find_effect_index : MixerTrackId → EffectId → List (MixerTrackId × EffectId × ℕ) → Option ℕ
find_effect_index track effect [] = none
find_effect_index track effect ((t, e, i) ∷ rest) =
    let later = find_effect_index track effect rest in
    if id_eq t track && id_eq e effect then some i else later

-- What the loops over the clips collect.
pub record Resolved : Type 0 where
  pub notes : List ResolvedNote
  pub params : List ResolvedParam
  pub effect_params : List ResolvedEffectParam
  pub audio_starts : List ResolvedAudio
  pub end_ticks : Ticks
  pub clips_flattened : ℕ
  pub notes_dropped : ℕ

abbrev pub nothing_resolved : Resolved
nothing_resolved = record {
  notes = [];
  params = [];
  effect_params = [];
  audio_starts = [];
  end_ticks = pos 0;
  clips_flattened = 0;
  notes_dropped = 0;
}

abbrev outside_clip : Clip → AutomationPoint → Bool
outside_clip clip point = ltb_ℤ point.position (pos 0) || leb_ℤ clip.length point.position

pub points_to_params : Clip → ℕ → ParamId → List AutomationPoint → List ResolvedParam
points_to_params clip index parameter [] = []
points_to_params clip index parameter (point ∷ points) =
    let later = points_to_params clip index parameter points in
    if outside_clip clip point
    then later
    else record {
      position = clip.start +ℤ point.position;
      instrument = index;
      parameter = parameter;
      value = point.value;
    }
      ∷ later

pub points_to_effect_params : Clip → ℕ → ParamId → List AutomationPoint → List ResolvedEffectParam
points_to_effect_params clip index parameter [] = []
points_to_effect_params clip index parameter (point ∷ points) =
    let later = points_to_effect_params clip index parameter points in
    if outside_clip clip point
    then later
    else record {
      position = clip.start +ℤ point.position;
      effect = index;
      parameter = parameter;
      value = point.value;
    }
      ∷ later

-- The points of a curve on a target of one kind, and whether the target has an index.
pub resolve_target : Indices → Clip → AutomationSource → TargetKind → Resolved → Resolved × Bool
unfolding points_to_params points_to_effect_params
resolve_target indices clip source TargetKind.mixer_track st = (st, false)
resolve_target indices clip source TargetKind.instrument st =
    elim (find source.instrument indices.instruments) [
      | none ↦ (st, false)
      | some index ↦ (
        record st {
          params = st.params ++ points_to_params clip index source.parameter source.points;
        },
        true,
      )
    ]
resolve_target indices clip source TargetKind.effect st =
    elim (find_effect_index source.mixer_track source.effect indices.effects) [
      | none ↦ (st, false)
      | some index ↦ (
        record st {
          effect_params =
              st.effect_params ++ points_to_effect_params clip index source.parameter source.points;
        },
        true,
      )
    ]

abbrev pub resolve_curve : Indices → Clip → AutomationSource → Resolved → Resolved × Bool
resolve_curve indices clip source st = resolve_target indices clip source source.target_kind st

-- The automation that a pattern owns.
pub resolve_automation : Indices → Clip → List AutomationSource → Resolved → Resolved
resolve_automation indices clip [] st = st
resolve_automation indices clip (source ∷ sources) st =
    resolve_automation indices clip sources (resolve_curve indices clip source st).0

pub resolve_automation_clip : Indices → Clip → AutomationSource → Resolved → Resolved
resolve_automation_clip indices clip source st =
    let r = resolve_curve indices clip source st in
    if r.1 then record r.0 { clips_flattened = suc r.0.clips_flattened } else st

pub resolve_audio_clip : Indices → ClipId → Clip → Resolved → Resolved
resolve_audio_clip indices clip_id clip st = elim (find clip_id indices.audio) [
  | none ↦ st
  | some channel ↦ record st {
    clips_flattened = suc st.clips_flattened;
    audio_starts = st.audio_starts ++ record { start = clip.start; channel = channel } ∷ [];
  }
]
