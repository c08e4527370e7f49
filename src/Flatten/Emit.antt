-- ===== src/Flatten/Emit.antt =====
-- The second half of `flatten` in engine/src/model/flattener.cpp: from what was resolved, in ticks, to the
-- schedule, in frames.
pub mod Order
pub mod Events
use onebeat.Prelude.{ℕ, ◌+◌, Bool, not, List, [], ◌∷◌, Option, none, some, ltb, ◌==◌, if◌then◌else◌}
use onebeat.Prelude.Int.{ℤ, pos, ◌-ℤ◌, ltb_ℤ, eq_ℤ, max_ℤ}
use onebeat.Notes.{Ticks}
use onebeat.Project.{Project}
use onebeat.Schedule.{
  Schedule, ScheduleBuilder, new_builder, add_note, add_param_value, add_effect_param,
  add_audio_start, set_length_frames, build,
}
use onebeat.Transport.{Doubles, TimeMap, time_map, beats_to_frames}
use onebeat.Flatten.{ResolvedNote, resolve_overlaps}
use onebeat.Flatten.Resolve.Loops.{resolve_project}
use onebeat.Flatten.Resolve.{
  Floats, ResolvedParam, ResolvedEffectParam, ResolvedAudio, Resolved, Indices, index_project,
}

-- The comparisons of the two sorts.
pub param_before : ResolvedParam → ResolvedParam → Bool
param_before a b =
    if not (eq_ℤ a.position b.position)
    then ltb_ℤ a.position b.position
    else if not (a.instrument == b.instrument)
    then ltb a.instrument b.instrument
    else ltb a.parameter b.parameter

pub effect_param_before : ResolvedEffectParam → ResolvedEffectParam → Bool
effect_param_before a b =
    if not (eq_ℤ a.position b.position)
    then ltb_ℤ a.position b.position
    else if not (a.effect == b.effect)
    then ltb a.effect b.effect
    else ltb a.parameter b.parameter

-- `std::sort` under the three comparisons.
pub record Sorts : Type 0 where
  pub notes : List ResolvedNote → List ResolvedNote
  pub params : List ResolvedParam → List ResolvedParam
  pub effect_params : List ResolvedEffectParam → List ResolvedEffectParam

pub record FlattenResult : Type 0 where
  pub schedule : Schedule
  pub indices : Indices
  pub length_frames : ℤ
  pub clips_flattened : ℕ
  pub notes_dropped : ℕ

-- The loops that add events.
pub emit_notes : (Ticks → ℤ) → List ResolvedNote → ScheduleBuilder → ScheduleBuilder
emit_notes to_frames [] b = b
emit_notes to_frames (n ∷ ns) b =
    let start_frame = to_frames n.start in
    let duration = max_ℤ (pos 1) (to_frames n.end -ℤ start_frame) in
    emit_notes to_frames ns (add_note b n.instrument n.key n.velocity start_frame duration)

pub emit_params : (Ticks → ℤ) → List ResolvedParam → ScheduleBuilder → ScheduleBuilder
emit_params to_frames [] b = b
emit_params to_frames (q ∷ qs) b =
    emit_params to_frames qs
      (add_param_value b q.instrument q.parameter q.value (to_frames q.position))

pub emit_effect_params : (Ticks → ℤ) → List ResolvedEffectParam → ScheduleBuilder → ScheduleBuilder
emit_effect_params to_frames [] b = b
emit_effect_params to_frames (q ∷ qs) b =
    emit_effect_params to_frames qs
      (add_effect_param b q.effect q.parameter q.value (to_frames q.position))

pub emit_audio : (Ticks → ℤ) → List ResolvedAudio → ScheduleBuilder → ScheduleBuilder
emit_audio to_frames [] b = b
emit_audio to_frames (a ∷ rest) b =
    emit_audio to_frames rest (add_audio_start b a.channel (to_frames a.start))

-- The builder when all loops have run.
pub emit_all : Sorts → (Ticks → ℤ) → Resolved → ScheduleBuilder
emit_all sorts to_frames r =
    let notes = emit_notes to_frames (resolve_overlaps sorts.notes r.notes) new_builder in
    let params = emit_params to_frames (sorts.params r.params) notes in
    let inserts = emit_effect_params to_frames (sorts.effect_params r.effect_params) params in
    let audio = emit_audio to_frames r.audio_starts inserts in
    set_length_frames audio (to_frames r.end_ticks)

module _ (doubles : Doubles) (floats : Floats doubles) where
  open doubles use {Double, div, of_int}
  open floats use {of_bits}

  pub to_frames : Double → ℕ → Ticks → ℤ
  to_frames sample_rate tempo ticks =
      beats_to_frames doubles (time_map doubles sample_rate (of_bits tempo))
        (div (of_int ticks) (of_int (pos 960)))

  -- `sample_rate` comes with its bits, which the schedule stores.
  pub flatten : Sorts → Project → ℕ → ℕ → Option FlattenResult
  unfolding emit_all to_frames
  flatten sorts p sample_rate generation = elim (resolve_project doubles floats p) [
    | none ↦ none
    | some r ↦
        let frames = to_frames (of_bits sample_rate) p.transport.tempo in
        some (record {
          schedule = build (emit_all sorts frames r) sample_rate generation;
          indices = index_project p;
          length_frames = frames r.end_ticks;
          clips_flattened = r.clips_flattened;
          notes_dropped = r.notes_dropped;
        })
  ]
