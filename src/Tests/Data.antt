-- ===== src/Tests/Data.antt =====
-- The data of the tests: a project with two mixer tracks, an instrument, a pattern and a clip of each kind.
use onebeat.Prelude.{ℕ, ◌+◌, true, false, some, [], ◌∷◌}
use onebeat.Prelude.Int.{pos}
use onebeat.Notes.{Note, NoteSequence}
use onebeat.Ids.{
  EntityKind, TypedId, RawId, IdGenerator, InstrumentId, PatternId, ArrangementLaneId, ClipId,
  MixerTrackId,
}
use onebeat.Entities.{
  Clip, Pattern, ArrangementLane, PluginRef, PluginFormat, ClipSource, pattern_source, audio_source,
  automation_source, AudioSource, AutomationSource, StretchMode, TargetKind, tempo_120, one_f,
}
use onebeat.Project.{Project, fresh_track, four_four}
use onebeat.Project.Create.{fresh_instrument, fresh_pattern, fresh_lane, default_transforms}

abbrev pub raw : ℕ → RawId
raw n = record { high = 0; low = n }

abbrev pub key_of : {K : EntityKind} → ℕ → TypedId K
key_of n = record { raw = raw n }

abbrev pub note : ℕ → ℕ → Note
note start key = record { start = pos start; length = pos 240; key = pos key; velocity = 100 }

abbrev pub two_notes : NoteSequence
two_notes = record { notes = note 0 60 ∷ note 960 64 ∷ [] }

abbrev pub master : MixerTrackId
master = key_of 1

abbrev pub strings : MixerTrackId
strings = key_of 2

abbrev pub kick : InstrumentId
kick = key_of 3

abbrev pub beat : PatternId
beat = key_of 4

abbrev pub lane : ArrangementLaneId
lane = key_of 5

abbrev pub builtin : PluginRef
builtin = record {
  format = PluginFormat.builtin;
  id = "sampler";
  name = "Sampler";
  vendor = "";
  path_hint = "";
  state_ref = "";
  state_sha256 = "";
}

abbrev pub clip_of : ClipId → ClipSource → Clip
clip_of id source = record {
  id = id;
  lane = lane;
  start = pos 0;
  length = pos 3840;
  muted = false;
  source = source;
  transforms = default_transforms;
}

abbrev pub recording : AudioSource
recording = record {
  path = "take.wav";
  source_offset = pos 0;
  source_length = pos 3840;
  gain = one_f;
  reversed = false;
  destination = strings;
  stretch_mode = StretchMode.off;
  source_bpm = tempo_120;
}

abbrev pub curve : AutomationSource
curve = record {
  target_kind = TargetKind.instrument;
  instrument = kick;
  mixer_track = key_of 0;
  effect = key_of 0;
  parameter = 7;
  points = [];
}

abbrev pub placed_clip : Clip
placed_clip = clip_of (key_of 6) (pattern_source beat)

abbrev pub generator : IdGenerator
generator = record {
  clock = λ n. 1000 + n;
  reads = 0;
  rng_state = 1;
  fixed_now_ms = 0;
  is_deterministic = false;
  last_ms = 900;
  last_random_high = 5;
  last_random_low = 9;
  has_last = true;
}

abbrev pub beat_pattern : Pattern
beat_pattern = record (fresh_pattern beat "Beat" (pos 3840) (pos 0)) {
  sequences = (kick, two_notes) ∷ [];
}

abbrev pub only_lane : ArrangementLane
only_lane = fresh_lane lane "Lane" (pos 0)

abbrev pub sample : Project
sample = record {
  generator = generator;
  emitted = [];
  preferences = record { auto_create_mixer_track = true };
  instruments = (kick, fresh_instrument kick "Kick" (pos 0) builtin strings) ∷ [];
  patterns = (beat, beat_pattern) ∷ [];
  lanes = (lane, only_lane) ∷ [];
  clips =
      (key_of 6, placed_clip)
      ∷ (key_of 7, clip_of (key_of 7) (audio_source recording))
      ∷ (key_of 8, clip_of (key_of 8) (automation_source curve))
      ∷ [];
  mixer_tracks =
      (master, fresh_track master "Master")
      ∷ (strings, record (fresh_track strings "Strings") { output = some master })
      ∷ [];
  master = master;
  transport = record {
    tempo = tempo_120;
    time_signature = four_four;
    metronome_enabled = false;
    loop_enabled = true;
    loop_start = pos 0;
    loop_end = pos 30720;
  };
  meta = record { name = "Untitled"; created_with = "" };
}
