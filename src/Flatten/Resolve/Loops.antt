-- ===== src/Flatten/Resolve/Loops.antt =====
-- The loops of `flatten` in engine/src/model/flattener.cpp over lanes, clips, sequences and notes.
pub mod Ends
use onebeat.Prelude.{
  ℕ, zero, suc, ◌+◌, ◌/◌, ◌%◌, Bool, true, false, not, ◌&&◌, ◌||◌, List, [], ◌∷◌, ◌++◌, map, Option,
  none, some, ◌==◌, if◌then◌else◌, length,
}
use onebeat.Prelude.Int.{ℤ, pos, pos_part, ◌+ℤ◌, ltb_ℤ, leb_ℤ, max_ℤ}
use onebeat.Prelude.Map.{Map, find}
use onebeat.Notes.{Ticks, Velocity, Note, NoteSequence, max_velocity}
use onebeat.Ids.{InstrumentId, ArrangementLaneId, ClipId, MixerTrackId, EffectId}
use onebeat.Ids.Order.{id_key, id_eq}
use onebeat.Entities.{
  Float, ParamId, ChannelSettings, Instrument, EffectSlot, MixerTrack, AutomationPoint, TargetKind,
  AutomationSource, Pattern, ClipSource, pattern_source, audio_source, automation_source, Clip,
  pattern_effective_length,
}
use onebeat.Project.{Project}
use onebeat.Project.Impact.{clips_on_lane}
use onebeat.Transport.{Doubles}
use onebeat.Flatten.{ResolvedNote, Occurrence, audible_lanes, collect_occurrences}
use onebeat.Flatten.Resolve.{
  Floats, ResolvedParam, ResolvedEffectParam, ResolvedAudio, Indices, index_project, Resolved,
  nothing_resolved, resolve_automation, resolve_automation_clip, resolve_audio_clip,
}

abbrev pub any_instrument_solo : Map InstrumentId Instrument → Bool
any_instrument_solo [] = false
any_instrument_solo ((id, i) ∷ rest) = i.soloed || any_instrument_solo rest

abbrev pub place : Clip → ℕ → ℤ → Float → Occurrence → ResolvedNote
place clip index key velocity o = record {
  start = clip.start +ℤ o.start;
  end = clip.start +ℤ o.end;
  instrument = index;
  key = key;
  velocity = velocity;
}

module _ (doubles : Doubles) (floats : Floats doubles) where
  open doubles use {ge, mul, div, of_int, to_int, llround}
  open floats use {of_bits, float_of_int, float_div, float_mul, float_lt}

  -- Swing delays the odd steps of the grid of 240 ticks.
  swung_position : Ticks → ℕ → Ticks
  swung_position position swing =
      if ge (of_int (pos 0)) (of_bits swing)
        || ltb_ℤ position (pos 0)
        || not (pos_part position % 240 == 0)
      then position
      else if pos_part position / 240 % 2 == 0
      then position
      else position +ℤ to_int (mul (of_bits swing) (div (of_int (pos 240)) (of_int (pos 2))))

  abbrev velocity_to_unit : Velocity → Float
  velocity_to_unit velocity = float_div (float_of_int velocity) (float_of_int max_velocity)

  -- `std::clamp(x, 0.0F, 1.0F)`
  abbrev clamp_unit : Float → Float
  clamp_unit x =
      if float_lt x (float_of_int 0)
      then float_of_int 0
      else if float_lt (float_of_int 1) x
      then float_of_int 1
      else x

  abbrev pub velocity_of : Velocity → Float → Float
  velocity_of velocity tracking = clamp_unit (float_mul (velocity_to_unit velocity) tracking)

  -- The note after swing, shift and gate.
  pub swung_note : Pattern → ChannelSettings → Note → Note
  unfolding swung_position
  swung_note pattern settings note = record note {
    start = swung_position note.start pattern.swing +ℤ settings.shift_ticks;
    length = max_ℤ (pos 1) (
        llround (div (mul (of_int note.length) (of_int settings.gate_percent)) (of_int (pos 100))));
  }

  -- The body of the loop over the notes of a sequence.
  pub resolve_note : Clip → Pattern → Instrument → ℕ → Note → Resolved → Option Resolved
  unfolding swung_note
  resolve_note clip pattern instrument index note st =
      let key = note.key +ℤ clip.transforms.transpose in
      let settings = instrument.channel_settings in
      let dropped = record st { notes_dropped = suc st.notes_dropped } in
      let velocity = velocity_of note.velocity settings.velocity_tracking in
      if ltb_ℤ key (pos 0) || ltb_ℤ (pos 127) key
      then some dropped
      else if ltb_ℤ key settings.key_low || ltb_ℤ settings.key_high key
      then some dropped
      else elim (collect_occurrences (swung_note pattern settings note) clip
          (pattern_effective_length pattern)) [
            | none ↦ none
            | some os ↦
                some (record st { notes = st.notes ++ map (place clip index key velocity) os })
          ]

  pub resolve_notes : Clip → Pattern → Instrument → ℕ → List Note → Resolved → Option Resolved
  resolve_notes clip pattern instrument index [] st = some st
  resolve_notes clip pattern instrument index (note ∷ notes) st =
      elim (resolve_note clip pattern instrument index note st) [
        | none ↦ none
        | some next ↦ resolve_notes clip pattern instrument index notes next
      ]

  -- One sequence of a pattern: that of an instrument that is not gated.
  pub resolve_sequence :
      Project → Indices → Clip → Pattern → InstrumentId → NoteSequence → Resolved → Option Resolved
  resolve_sequence p indices clip pattern id sequence st = elim (find id p.instruments) [
    | none ↦ some st
    | some instrument ↦
        if instrument.muted || (any_instrument_solo p.instruments && not instrument.soloed)
        then some st
        else elim (find id indices.instruments) [
          | none ↦ some st
          | some index ↦ resolve_notes clip pattern instrument index sequence.notes st
        ]
  ]

  pub resolve_sequences :
      Project
      → Indices
      → Clip
      → Pattern
      → Map InstrumentId NoteSequence
      → Resolved
      → Option Resolved
  resolve_sequences p indices clip pattern [] st = some st
  resolve_sequences p indices clip pattern ((id, sequence) ∷ rest) st =
      elim (resolve_sequence p indices clip pattern id sequence st) [
        | none ↦ none
        | some next ↦ resolve_sequences p indices clip pattern rest next
      ]

  pub resolve_pattern_clip : Project → Indices → Clip → Pattern → Resolved → Option Resolved
  resolve_pattern_clip p indices clip pattern st =
      if leb_ℤ (pattern_effective_length pattern) (pos 0)
      then some st
      else elim (resolve_sequences p indices clip pattern pattern.sequences
          (record st { clips_flattened = suc st.clips_flattened })) [
            | none ↦ none
            | some next ↦ some (resolve_automation indices clip pattern.automation next)
          ]

  -- A clip that sounds, by its source.
  pub resolve_source : Project → Indices → ClipId → Clip → ClipSource → Resolved → Option Resolved
  resolve_source p indices id clip (pattern_source q) st = elim (find q p.patterns) [
    | none ↦ some st
    | some pattern ↦ resolve_pattern_clip p indices clip pattern st
  ]
  resolve_source p indices id clip (audio_source a) st =
      some (resolve_audio_clip indices id clip st)
  resolve_source p indices id clip (automation_source a) st =
      some (resolve_automation_clip indices clip a st)

  pub flatten_clip : Project → Indices → ClipId → Resolved → Option Resolved
  flatten_clip p indices id st = elim (find id p.clips) [
    | none ↦ some st
    | some clip ↦
        if clip.muted || leb_ℤ clip.length (pos 0)
        then some st
        else resolve_source p indices id clip clip.source
            (record st { end_ticks = max_ℤ st.end_ticks (clip.start +ℤ clip.length) })
  ]

  pub flatten_clips : Project → Indices → List ClipId → Resolved → Option Resolved
  flatten_clips p indices [] st = some st
  flatten_clips p indices (id ∷ ids) st = elim (flatten_clip p indices id st) [
    | none ↦ none
    | some next ↦ flatten_clips p indices ids next
  ]

  pub resolve_lanes : Project → Indices → List ArrangementLaneId → Resolved → Option Resolved
  resolve_lanes p indices [] st = some st
  resolve_lanes p indices (lane ∷ lanes) st =
      elim (flatten_clips p indices (clips_on_lane p lane) st) [
        | none ↦ none
        | some next ↦ resolve_lanes p indices lanes next
      ]

  pub resolve_project : Project → Option Resolved
  resolve_project p = resolve_lanes p (index_project p) (audible_lanes p) nothing_resolved
