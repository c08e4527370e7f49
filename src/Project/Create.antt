-- ===== src/Project/Create.antt =====
-- The creation of entities: engine/src/model/project.cpp.
use onebeat.Prelude.{Bool, false, not, Option, none, some, [], ◌∷◌, String, if◌then◌else◌, is_some}
use onebeat.Prelude.Int.{ℤ, pos, negsuc, ◌+ℤ◌, max_ℤ}
use onebeat.Prelude.Map.{Map, find, emplace, has}
use onebeat.Notes.{Ticks, default_velocity}
use onebeat.Ids.{
  EntityKind, InstrumentId, PatternId, ArrangementLaneId, ClipId, MixerTrackId, next_id, no_id,
}
use onebeat.Ids.Order.{id_key}
use onebeat.Changes.{ChangeType, ChangeField}
use onebeat.Entities.{
  Instrument, Pattern, ArrangementLane, Clip, PluginRef, NoteDefaults, ChannelSettings,
  ClipTransforms, ClipSource, pattern_source, audio_source, automation_source, AutomationSource,
  TargetKind, find_effect, default_color, one_f, zero_f,
}
use onebeat.Project.{Project, emit, no_raw, fresh_track, four_four}

-- The loop that finds the highest order of the entries, from `highest` on.
unfoldable pub highest_order : {K V : Type 0} → (V → ℤ) → ℤ → Map K V → ℤ
highest_order order highest [] = highest
highest_order order highest ((k, v) ∷ rest) = highest_order order (max_ℤ highest (order v)) rest

abbrev pub next_order : {K V : Type 0} → (V → ℤ) → Map K V → ℤ
next_order order m = highest_order order (negsuc 0) m +ℤ pos 1

unfoldable pub create_mixer_track : Project → String → Option MixerTrackId → Project × MixerTrackId
unfolding emit
create_mixer_track p name output =
    let (id, generator) = next_id {K = EntityKind.mixer_track} p.generator in
    let wanted : MixerTrackId = elim output [ none ↦ p.master | some o ↦ o ] in
    let target = if has wanted p.mixer_tracks then wanted else p.master in
    let track = record (fresh_track id name) { output = some target } in
    (
      emit (record p { generator = generator; mixer_tracks = emplace id track p.mixer_tracks })
          ChangeType.added EntityKind.mixer_track id.raw ChangeField.all no_raw,
      id,
    )

abbrev pub default_note_defaults : NoteDefaults
default_note_defaults = record { velocity = default_velocity; pan = zero_f; pitch_offset = pos 0 }

abbrev pub default_channel_settings : ChannelSettings
default_channel_settings = record {
  gate_percent = pos 100;
  shift_ticks = pos 0;
  cut_group = pos 0;
  cut_by_group = pos 0;
  max_polyphony = pos 0;
  mono = false;
  portamento = false;
  root_key = pos 60;
  key_low = pos 0;
  key_high = pos 127;
  fine_tune_cents = pos 0;
  velocity_tracking = one_f;
  mod_x = pos 0;
  mod_y = pos 0;
  arpeggiator = false;
  arpeggiator_time_ticks = pos 240;
  arpeggiator_gate_percent = pos 100;
  echo_time_ticks = pos 0;
  echo_feedback_percent = pos 0;
}

-- The track that a new instrument plays into: its own, or Master.
unfoldable pub instrument_destination : Project → String → Project × MixerTrackId
unfolding create_mixer_track
instrument_destination p name =
    if p.preferences.auto_create_mixer_track
    then create_mixer_track p name (some p.master)
    else (p, p.master)

abbrev pub fresh_instrument : InstrumentId → String → ℤ → PluginRef → MixerTrackId → Instrument
fresh_instrument id name order plugin destination = record {
  id = id;
  name = name;
  color = default_color;
  order = order;
  plugin = plugin;
  note_defaults = default_note_defaults;
  channel_settings = default_channel_settings;
  routing = record { port = 0; track = destination } ∷ [];
  muted = false;
  soloed = false;
  gain = one_f;
  pan = zero_f;
}

unfoldable pub create_instrument : Project → String → PluginRef → Project × InstrumentId
unfolding emit instrument_destination
create_instrument p name plugin =
    let (id, generator) = next_id {K = EntityKind.instrument} p.generator in
    let order = next_order (λ (i : Instrument). i.order) p.instruments in
    let (p', destination) = instrument_destination (record p { generator = generator }) name in
    (
      emit
          (record p' {
            instruments =
                emplace id (fresh_instrument id name order plugin destination) p'.instruments;
          })
          ChangeType.added EntityKind.instrument id.raw ChangeField.all destination.raw,
      id,
    )

abbrev pub fresh_pattern : PatternId → String → Ticks → ℤ → Pattern
fresh_pattern id name length order = record {
  id = id;
  name = name;
  color = default_color;
  length = length;
  order = order;
  group = "";
  time_signature = four_four;
  swing = 0;
  sequences = [];
  automation = [];
}

unfoldable pub create_pattern : Project → String → Ticks → Project × PatternId
unfolding emit
create_pattern p name length =
    let (id, generator) = next_id {K = EntityKind.pattern} p.generator in
    let pattern = fresh_pattern id name length (next_order (λ (q : Pattern). q.order) p.patterns) in
    (
      emit (record p { generator = generator; patterns = emplace id pattern p.patterns })
          ChangeType.added EntityKind.pattern id.raw ChangeField.all no_raw,
      id,
    )

abbrev pub fresh_lane : ArrangementLaneId → String → ℤ → ArrangementLane
fresh_lane id name order = record {
  id = id;
  name = name;
  color = default_color;
  height = pos 88;
  order = order;
  collapsed = false;
  muted = false;
  soloed = false;
  group_id = none;
}

unfoldable pub create_lane : Project → String → Project × ArrangementLaneId
unfolding emit
create_lane p name =
    let (id, generator) = next_id {K = EntityKind.arrangement_lane} p.generator in
    let lane = fresh_lane id name (next_order (λ (l : ArrangementLane). l.order) p.lanes) in
    (
      emit (record p { generator = generator; lanes = emplace id lane p.lanes }) ChangeType.added
          EntityKind.arrangement_lane id.raw ChangeField.all no_raw,
      id,
    )

-- What an automation clip drives is there.
abbrev pub target_resolves : Project → AutomationSource → TargetKind → Bool
target_resolves p a TargetKind.instrument = has a.instrument p.instruments
target_resolves p a TargetKind.mixer_track = has a.mixer_track p.mixer_tracks
target_resolves p a TargetKind.effect = elim (find a.mixer_track p.mixer_tracks) [
  | none ↦ false
  | some track ↦ is_some (find_effect track a.effect)
]

-- What a clip refers to is there.
abbrev pub source_resolves : Project → ClipSource → Bool
source_resolves p (pattern_source id) = has id p.patterns
source_resolves p (audio_source a) = has a.destination p.mixer_tracks
source_resolves p (automation_source a) = target_resolves p a a.target_kind

abbrev pub default_transforms : ClipTransforms
default_transforms = record {
  transpose = pos 0;
  loop = false;
  window_start = pos 0;
  velocity_scale = one_f;
  time_nudge = pos 0;
  probability = one_f;
}

unfoldable pub create_clip :
    Project → ArrangementLaneId → ClipSource → Ticks → Ticks → Project × ClipId
unfolding emit
create_clip p lane source start length =
    if not (has lane p.lanes)
    then (p, no_id)
    else if not (source_resolves p source)
    then (p, no_id)
    else let (id, generator) = next_id {K = EntityKind.clip} p.generator in
      let clip : Clip = record {
        id = id;
        lane = lane;
        start = start;
        length = length;
        muted = false;
        source = source;
        transforms = default_transforms;
      } in
      (
        emit (record p { generator = generator; clips = emplace id clip p.clips }) ChangeType.added
            EntityKind.clip id.raw ChangeField.all lane.raw,
        id,
      )
