-- ===== src/Entities.antt =====
-- The domain entities: engine/src/model/entities.h. A `float` or `double` is stored as its bit
-- pattern, and no definition here computes with one.
pub mod Length
use Prim.Native.String.{String}
use onebeat.Prelude.{
  ℕ, suc, ◌+◌, ◌-◌, ◌*◌, ◌/◌, ◌≡◌, ◌↔◌, Bool, true, false, arith, Option, none, some, List, [], ◌∷◌,
  ltb, ◌==◌, if◌then◌else◌, is_some,
}
use onebeat.Prelude.Int.{ℤ, pos, negsuc, pos_part, ◌+ℤ◌, ◌-ℤ◌, ◌*ℤ◌, ltb_ℤ, leb_ℤ, max_ℤ}
use onebeat.Prelude.Map.{Key, Map}
use onebeat.Notes.{
  Ticks, Velocity, NoteSequence, content_end, default_velocity, ticks_per_bar_four_four,
}
use onebeat.Ids.{InstrumentId, PatternId, ArrangementLaneId, ClipId, MixerTrackId, EffectId, no_id}
use onebeat.Ids.Order.{id_key, id_eq}

abbrev pub Float : Type 0
Float = ℕ

abbrev pub Double : Type 0
Double = ℕ

-- 0.0F and 1.0F.
abbrev pub zero_f : Float
zero_f = 0

abbrev pub one_f : Float
one_f = 0x3F800000

-- 120.0.
abbrev pub tempo_120 : Double
tempo_120 = 0x405E000000000000

abbrev pub ColorHex : Type 0
ColorHex = String

abbrev pub default_color : ColorHex
default_color = "#6C8CFF"

abbrev pub ParamId : Type 0
ParamId = ℕ

abbrev pub PortId : Type 0
PortId = ℕ

pub data PluginFormat : Type 0 where
  unknown clap vst3 audio_unit builtin : PluginFormat

pub record PluginRef : Type 0 where
  pub format : PluginFormat
  pub id : String
  pub name : String
  pub vendor : String
  pub path_hint : String
  pub state_ref : String
  pub state_sha256 : String

pub record OutputRoute : Type 0 where
  pub port : PortId
  pub track : MixerTrackId

pub record NoteDefaults : Type 0 where
  pub velocity : Velocity
  pub pan : Float
  pub pitch_offset : ℤ

pub record ChannelSettings : Type 0 where
  pub gate_percent : ℤ
  pub shift_ticks : Ticks
  pub cut_group : ℤ
  pub cut_by_group : ℤ
  pub max_polyphony : ℤ
  pub mono : Bool
  pub portamento : Bool
  pub root_key : ℤ
  pub key_low : ℤ
  pub key_high : ℤ
  pub fine_tune_cents : ℤ
  pub velocity_tracking : Float
  pub mod_x : ℤ
  pub mod_y : ℤ
  pub arpeggiator : Bool
  pub arpeggiator_time_ticks : ℤ
  pub arpeggiator_gate_percent : ℤ
  pub echo_time_ticks : ℤ
  pub echo_feedback_percent : ℤ

pub record Instrument : Type 0 where
  pub id : InstrumentId
  pub name : String
  pub color : ColorHex
  pub order : ℤ
  pub plugin : PluginRef
  pub note_defaults : NoteDefaults
  pub channel_settings : ChannelSettings
  pub routing : List OutputRoute
  pub muted : Bool
  pub soloed : Bool
  pub gain : Float
  pub pan : Float

pub record EffectSlot : Type 0 where
  pub id : EffectId
  pub plugin : PluginRef
  pub bypassed : Bool
  pub params : Map ParamId Float

pub record MixerTrack : Type 0 where
  pub id : MixerTrackId
  pub name : String
  pub output : Option MixerTrackId
  pub gain : Float
  pub pan : Float
  pub muted : Bool
  pub soloed : Bool
  pub effects : List EffectSlot

find_slot : EffectId → List EffectSlot → Option EffectSlot
find_slot effect [] = none
find_slot effect (slot ∷ slots) =
    let rest = find_slot effect slots in if id_eq slot.id effect then some slot else rest

-- `MixerTrack::findEffect`.
unfoldable pub find_effect : MixerTrack → EffectId → Option EffectSlot
unfolding find_slot
find_effect t effect = find_slot effect t.effects

pub record TimeSignature : Type 0 where
  pub numerator : ℤ
  pub denominator : ℤ

pub record AutomationPoint : Type 0 where
  pub position : Ticks
  pub value : Float

pub data TargetKind : Type 0 where
  instrument mixer_track effect : TargetKind

pub record AutomationSource : Type 0 where
  pub target_kind : TargetKind
  pub instrument : InstrumentId
  pub mixer_track : MixerTrackId
  pub effect : EffectId
  pub parameter : ParamId
  pub points : List AutomationPoint

pub record Pattern : Type 0 where
  pub id : PatternId
  pub name : String
  pub color : ColorHex
  pub length : Ticks
  pub order : ℤ
  pub group : String
  pub time_signature : TimeSignature
  pub swing : Double
  pub sequences : Map InstrumentId NoteSequence
  pub automation : List AutomationSource

pub record ArrangementLane : Type 0 where
  pub id : ArrangementLaneId
  pub name : String
  pub color : ColorHex
  pub height : ℤ
  pub order : ℤ
  pub collapsed : Bool
  pub muted : Bool
  pub soloed : Bool
  pub group_id : Option ArrangementLaneId

pub data StretchMode : Type 0 where
  off resample stretch : StretchMode

pub record AudioSource : Type 0 where
  pub path : String
  pub source_offset : Ticks
  pub source_length : Ticks
  pub gain : Float
  pub reversed : Bool
  pub destination : MixerTrackId
  pub stretch_mode : StretchMode
  pub source_bpm : Double

-- `PatternSource` holds a pattern's id and nothing else.
pub data ClipSource : Type 0 where
  pattern_source : PatternId → ClipSource
  audio_source : AudioSource → ClipSource
  automation_source : AutomationSource → ClipSource

pub record ClipTransforms : Type 0 where
  pub transpose : ℤ
  pub loop : Bool
  pub window_start : Ticks
  pub velocity_scale : Float
  pub time_nudge : Ticks
  pub probability : Float

pub record Clip : Type 0 where
  pub id : ClipId
  pub lane : ArrangementLaneId
  pub start : Ticks
  pub length : Ticks
  pub muted : Bool
  pub source : ClipSource
  pub transforms : ClipTransforms

pub record TransportState : Type 0 where
  pub tempo : Double
  pub time_signature : TimeSignature
  pub metronome_enabled : Bool
  pub loop_enabled : Bool
  pub loop_start : Ticks
  pub loop_end : Ticks

pub record ProjectMeta : Type 0 where
  pub name : String
  pub created_with : String

-- A note sequence of every instrument that the pattern uses: the loop of `patternContentEnd`.
sequences_end : Ticks → Map InstrumentId NoteSequence → Ticks
sequences_end end [] = end
sequences_end end ((i, s) ∷ rest) = sequences_end (max_ℤ end (content_end s)) rest

pub pattern_content_end : Pattern → Ticks
pattern_content_end p = sequences_end (pos 0) p.sequences

-- `bars * TicksPerBarFourFour`; the division is of a positive number.
pub pattern_loop_length : Pattern → Ticks
pattern_loop_length p =
    let content = pattern_content_end p in
    if leb_ℤ content (pos 0)
    then ticks_per_bar_four_four
    else let bars = (pos_part content + 3840 - 1) / 3840 in pos (bars * 3840)

pub pattern_effective_length : Pattern → Ticks
pattern_effective_length p =
    let declared = if ltb_ℤ (pos 0) p.length then p.length else ticks_per_bar_four_four in
    let content = pattern_content_end p in
    if leb_ℤ content declared then declared else pattern_loop_length p

pub audio_source_span : AudioSource → Ticks → Ticks → Ticks
audio_source_span source clip_length source_duration =
    if ltb_ℤ (pos 0) source.source_length
    then source.source_length
    else if ltb_ℤ source.source_offset source_duration
    then source_duration -ℤ source.source_offset
    else clip_length
