-- ===== src/Project.antt =====
-- The project: engine/src/model/project.h and project.cpp. The change events that a project has handed
-- to its listeners are a field, oldest first; the listeners are outside the model. `checkInvariants`
-- is compiled out of a release build and is not a step of the operations: the predicate
-- of module Integrity is what it would check.
pub mod Impact
pub mod Restore
pub mod Create
pub mod Delete
pub mod Modify
pub mod Integrity
use onebeat.Prelude.{
  ℕ, Bool, true, false, not, ◌&&◌, ◌||◌, Option, none, some, List, [], ◌∷◌, ◌++◌, String,
  if◌then◌else◌, is_some,
}
use onebeat.Prelude.Int.{ℤ, pos, negsuc, ◌+ℤ◌, max_ℤ}
use onebeat.Prelude.Map.{Map, find, emplace, assign, erase, has}
use onebeat.Notes.{NoteSequence, empty}
use onebeat.Ids.{
  EntityKind, RawId, TypedId, InstrumentId, PatternId, ArrangementLaneId, ClipId, MixerTrackId,
  IdGenerator, raw_valid, next_raw, next_id, no_id,
}
use onebeat.Ids.Order.{id_key}
use onebeat.Changes.{ChangeType, ChangeField, ChangeEvent}
use onebeat.Entities.{
  Instrument, Pattern, ArrangementLane, Clip, MixerTrack, TransportState, ProjectMeta,
  TimeSignature, one_f, zero_f, tempo_120,
}

pub record Preferences : Type 0 where
  pub auto_create_mixer_track : Bool

pub record Project : Type 0 where
  pub generator : IdGenerator
  pub emitted : List ChangeEvent
  pub preferences : Preferences
  pub instruments : Map InstrumentId Instrument
  pub patterns : Map PatternId Pattern
  pub lanes : Map ArrangementLaneId ArrangementLane
  pub clips : Map ClipId Clip
  pub mixer_tracks : Map MixerTrackId MixerTrack
  pub master : MixerTrackId
  pub transport : TransportState
  pub meta : ProjectMeta

abbrev pub no_raw : RawId
no_raw = record { high = 0; low = 0 }

unfoldable pub emit : Project → ChangeType → EntityKind → RawId → ChangeField → RawId → Project
emit p type kind id field related = record p {
  emitted =
      p.emitted
      ++ (record { type = type; kind = kind; id = id; field = field; related = related } ∷ []);
}

-- A mixer track as the struct's initialisers leave it, with its id and name.
abbrev pub fresh_track : MixerTrackId → String → MixerTrack
fresh_track id name = record {
  id = id;
  name = name;
  output = none;
  gain = one_f;
  pan = zero_f;
  muted = false;
  soloed = false;
  effects = [];
}

abbrev pub four_four : TimeSignature
four_four = record { numerator = pos 4; denominator = pos 4 }

-- The constructor: Master exists from the first moment.
unfoldable pub new_project : IdGenerator → Project
new_project generator =
    let (id, generator') = next_id {K = EntityKind.mixer_track} generator in
    record {
      generator = generator';
      emitted = [];
      preferences = record { auto_create_mixer_track = true };
      instruments = [];
      patterns = [];
      lanes = [];
      clips = [];
      mixer_tracks = (id, fresh_track id "Master") ∷ [];
      master = id;
      transport = record {
        tempo = tempo_120;
        time_signature = four_four;
        metronome_enabled = false;
        loop_enabled = true;
        loop_start = pos 0;
        loop_end = pos 30720;
      };
      meta = record { name = "Untitled"; created_with = "" };
    }

abbrev pub find_instrument : Project → InstrumentId → Option Instrument
find_instrument p id = find id p.instruments

abbrev pub find_pattern : Project → PatternId → Option Pattern
find_pattern p id = find id p.patterns

abbrev pub find_lane : Project → ArrangementLaneId → Option ArrangementLane
find_lane p id = find id p.lanes

abbrev pub find_clip : Project → ClipId → Option Clip
find_clip p id = find id p.clips

abbrev pub find_mixer_track : Project → MixerTrackId → Option MixerTrack
find_mixer_track p id = find id p.mixer_tracks

-- `mintId`: an id for a command to use, and no event
pub mint_id : (K : EntityKind) → Project → TypedId K × Project
mint_id K p =
    let (id, generator) = next_id {K = K} p.generator in (id, record p { generator = generator })

-- `setPreferences`, which sends no event
pub set_preferences : Project → Preferences → Project
set_preferences p preferences = record p { preferences = preferences }

pub set_transport : Project → TransportState → Project
unfolding emit
set_transport p transport =
    emit (record p { transport = transport }) ChangeType.modified EntityKind.project no_raw
      ChangeField.transport no_raw

pub set_meta : Project → ProjectMeta → Project
unfolding emit
set_meta p meta =
    emit (record p { meta = meta }) ChangeType.modified EntityKind.project no_raw ChangeField.meta
      no_raw
