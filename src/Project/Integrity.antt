-- ===== src/Project/Integrity.antt =====
-- What `checkReferentialIntegrity` (engine/src/model/invariants.cpp) demands of a project, as
-- predicates on its tables, with the order of the tables that `std::map` keeps. As there, the target of an
-- automation clip is looked up and those of the curves that a pattern owns are not.
pub mod Fresh
pub mod Reached
pub mod Create
pub mod EditSequence
pub mod Updates
pub mod Restored
pub mod Cascade
pub mod Repoint
pub mod Keep
pub mod DeletePattern
pub mod DeleteLane
pub mod DeleteInstrument
pub mod DeleteMixerTrack
use onebeat.Prelude.{
  ℕ, ◌≤◌, ◌<◌, ◌≡◌, ◌≢◌, ◌⊎◌, Bool, true, false, Option, none, some, List, [], ◌∷◌, All, is_some,
}
use onebeat.Prelude.Int.{ℤ, pos, ◌≤ℤ◌, ◌<ℤ◌}
use onebeat.Prelude.Map.{Map, find, has}
use onebeat.Prelude.Map.Ordered.{IsOrdered}
use onebeat.Notes.{Note, NoteSequence, empty, sequence_is_sorted}
use onebeat.Notes.Order.{IsValidNote}
use onebeat.Ids.{
  InstrumentId, PatternId, ArrangementLaneId, ClipId, MixerTrackId, EffectId, raw_valid,
}
use onebeat.Ids.Order.{id_key}
use onebeat.Entities.{
  Instrument, Pattern, ArrangementLane, Clip, MixerTrack, OutputRoute, EffectSlot, ClipSource,
  pattern_source, audio_source, automation_source, AudioSource, AutomationSource, TargetKind,
  StretchMode, find_effect,
}
use onebeat.Project.{Project}
use onebeat.Project.Create.{source_resolves}

-- Every route leads to a live track.
abbrev pub RoutesResolve : Map MixerTrackId MixerTrack → List OutputRoute → Type 0
RoutesResolve tracks = All (λ r. has r.track tracks ≡ true)

-- No port is routed twice.
abbrev pub DistinctPorts : List OutputRoute → Type 0
DistinctPorts [] = Unit
DistinctPorts (r ∷ rs) = All (λ s. r.port ≢ s.port) rs × DistinctPorts rs

pub record InstrumentOk (tracks : Map MixerTrackId MixerTrack) (i : Instrument) : Type 0 where
  pub routes : RoutesResolve tracks i.routing
  pub ports : DistinctPorts i.routing

-- A sequence of a pattern: for a live instrument, not empty, in canonical order, its notes valid.
pub record SequenceOk (instruments : Map InstrumentId Instrument) (i : InstrumentId)
    (s : NoteSequence) : Type 0 where
  pub instrument : has i instruments ≡ true
  pub sparse : empty s ≡ false
  pub sorted : sequence_is_sorted s ≡ true
  pub notes : All IsValidNote s.notes

pub record PatternOk (instruments : Map InstrumentId Instrument) (q : Pattern) : Type 0 where
  pub ordered : IsOrdered q.sequences
  pub each :
      (i : InstrumentId) (s : NoteSequence)
      → find i q.sequences ≡ some s
      → SequenceOk instruments i s

-- A lane's group is another live lane.
pub record LaneOk (lanes : Map ArrangementLaneId ArrangementLane) (l : ArrangementLaneId)
    (lane : ArrangementLane) : Type 0 where
  pub group : (g : ArrangementLaneId) → lane.group_id ≡ some g → (g ≢ l) × (has g lanes ≡ true)

-- What is asked of the source of a clip of a length, beside that it resolves.
abbrev pub WindowOk : ℤ → ClipSource → Type 0
WindowOk length (pattern_source q) = Unit
WindowOk length (automation_source a) = Unit
WindowOk length (audio_source a) =
    (pos 0 ≤ℤ a.source_offset)
    × (pos 0 ≤ℤ a.source_length)
    × ((a.stretch_mode ≡ StretchMode.off) ⊎ ((pos 0 <ℤ a.source_length) ⊎ (pos 0 <ℤ length)))

pub record ClipOk (p : Project) (c : Clip) : Type 0 where
  pub lane : has c.lane p.lanes ≡ true
  pub start : pos 0 ≤ℤ c.start
  pub length : pos 0 ≤ℤ c.length
  pub source : source_resolves p c.source ≡ true
  pub window : WindowOk c.length c.source

-- Every slot has an id, and no two share one.
abbrev pub SlotsOk : List EffectSlot → Type 0
SlotsOk [] = Unit
SlotsOk (s ∷ ss) = (raw_valid s.id.raw ≡ true) × All (λ t. s.id ≢ t.id) ss × SlotsOk ss

-- The one track without an output is Master; the outputs of the others are live, and following
-- them leads down a rank, so no track is part of a cycle.
pub record MixerOk (tracks : Map MixerTrackId MixerTrack) (master : MixerTrackId) : Type 0 where
  pub master_there : has master tracks ≡ true
  pub master_out : (t : MixerTrack) → find master tracks ≡ some t → t.output ≡ none
  pub only_master :
      (k : MixerTrackId) (t : MixerTrack) → find k tracks ≡ some t → t.output ≡ none → k ≡ master
  pub outputs :
      (k : MixerTrackId) (t : MixerTrack) (out : MixerTrackId)
      → find k tracks ≡ some t
      → t.output ≡ some out
      → has out tracks ≡ true
  pub rank : MixerTrackId → ℕ
  pub downhill :
      (k : MixerTrackId) (t : MixerTrack) (out : MixerTrackId)
      → find k tracks ≡ some t
      → t.output ≡ some out
      → rank out < rank k
  pub slots : (k : MixerTrackId) (t : MixerTrack) → find k tracks ≡ some t → SlotsOk t.effects

pub record TablesOrdered (p : Project) : Type 0 where
  pub instruments : IsOrdered p.instruments
  pub patterns : IsOrdered p.patterns
  pub lanes : IsOrdered p.lanes
  pub clips : IsOrdered p.clips
  pub mixer_tracks : IsOrdered p.mixer_tracks

pub record Integrity (p : Project) : Type 0 where
  pub ordered : TablesOrdered p
  pub instruments :
      (k : InstrumentId) (i : Instrument)
      → find k p.instruments ≡ some i
      → InstrumentOk p.mixer_tracks i
  pub patterns :
      (k : PatternId) (q : Pattern) → find k p.patterns ≡ some q → PatternOk p.instruments q
  pub lanes :
      (k : ArrangementLaneId) (l : ArrangementLane) → find k p.lanes ≡ some l → LaneOk p.lanes k l
  pub lane_orders :
      (j k : ArrangementLaneId) (l m : ArrangementLane)
      → find j p.lanes ≡ some l
      → find k p.lanes ≡ some m
      → l.order ≡ m.order
      → j ≡ k
  pub clips : (k : ClipId) (c : Clip) → find k p.clips ≡ some c → ClipOk p c
  pub mixer : MixerOk p.mixer_tracks p.master
