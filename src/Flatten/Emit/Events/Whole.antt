-- ===== src/Flatten/Emit/Events/Whole.antt =====
-- The schedule of a whole project.
use mathlib.Core.List.{Perm}
use mathlib.Core.List.Perm
use onebeat.Prelude.{ℕ, ◌≡◌, refl, true, List, some, arith, All, All-map_pred}
use onebeat.Prelude.Members.{any-Mem, any-Perm, All-Mem, Mem-All, All-Perm}
use onebeat.Prelude.Int.{ℤ}
use onebeat.Prelude.Sorting.{is_sorted}
use onebeat.Notes.{Ticks}
use onebeat.Project.{Project}
use onebeat.Schedule.{ScheduleEvent, new_builder, event_before, set_length_frames}
use onebeat.Schedule.Order.{build_lem}
use onebeat.Transport.{Doubles}
use onebeat.Flatten.{ResolvedNote, resolve_overlaps}
use onebeat.Flatten.Overlaps.{cut_from}
use onebeat.Flatten.Overlaps.Survive.{resolve_overlaps_lem}
use onebeat.Flatten.Resolve.{Floats, Resolved}
use onebeat.Flatten.Resolve.Loops.Ends.{resolve_project-Addressed}
use onebeat.Flatten.Resolve.Sound.{
  Sizes, sizes_of, note_addressed, param_addressed, effect_addressed, Addressed,
}
use onebeat.Flatten.Emit.{
  Sorts, FlattenResult, emit_notes, emit_params, emit_effect_params, emit_all, to_frames, flatten,
}
use onebeat.Flatten.Emit.Events.{
  AreSorts, event_addressed, ends_note, is_ended, Sound, emit_notes-Sound, emit_params-Sound,
  emit_effect_params-Sound, emit_audio-Sound,
}

-- What the cuts leave has the channels and the keys of the notes.
overlaps-addressed :
    (z : Sizes) (sorts : Sorts) (ns : List ResolvedNote)
    → AreSorts sorts
    → All (λ n. note_addressed z n ≡ true) ns
    → All (λ n. note_addressed z n ≡ true) (resolve_overlaps sorts.notes ns)
overlaps-addressed z sorts ns ok h =
    Mem-All (note_addressed z) (resolve_overlaps sorts.notes ns) (λ m k.
      let r = any-Mem (cut_from m) ns ((resolve_overlaps_lem sorts.notes ns ok.notes).2 m k) in
      moved m r.0 (All-Mem (note_addressed z) r.0 ns h r.1) r.2)
  where
    moved :
        (m n : ResolvedNote)
        → note_addressed z n ≡ true
        → cut_from m n ≡ true
        → note_addressed z m ≡ true
    moved m n h k = ground arith

emit_all-Sound :
    (z : Sizes) (sorts : Sorts) (frames : Ticks → ℤ) (r : Resolved)
    → AreSorts sorts
    → Addressed z r
    → Sound z (emit_all sorts frames r).events
unfolding emit_all set_length_frames
emit_all-Sound z sorts frames r ok a =
    let notes = emit_notes frames (resolve_overlaps sorts.notes r.notes) new_builder in
    let params = emit_params frames (sorts.params r.params) notes in
    let inserts = emit_effect_params frames (sorts.effect_params r.effect_params) params in
    emit_audio-Sound z frames r.audio_starts inserts a.audio_starts (
      emit_effect_params-Sound z frames (sorts.effect_params r.effect_params) params
        (All-Perm (effect_addressed z) r.effect_params (sorts.effect_params r.effect_params)
          (Perm.symm (ok.effect_params r.effect_params).0) a.effect_params)
        (emit_params-Sound z frames (sorts.params r.params) notes
          (All-Perm (param_addressed z) r.params (sorts.params r.params)
            (Perm.symm (ok.params r.params).0) a.params)
          (emit_notes-Sound z frames (resolve_overlaps sorts.notes r.notes) new_builder
            (overlaps-addressed z sorts r.notes ok a.notes)
            (record { addressed = tt; ended = tt }))))

Sound-Perm : (z : Sizes) (es fs : List ScheduleEvent) → Perm es fs → Sound z fs → Sound z es
Sound-Perm z es fs e s = record {
  addressed = All-Perm (event_addressed z) fs es (Perm.symm e) s.addressed;
  ended = All-Perm (is_ended es) fs es (Perm.symm e) (
      All-map_pred (λ f. is_ended fs f ≡ true) (λ f. is_ended es f ≡ true) fs (λ f. still f)
        s.ended);
}
  where
    still : (f : ScheduleEvent) → is_ended fs f ≡ true → is_ended es f ≡ true
    still f h = ground (arith, any-Perm (ends_note f) fs es (Perm.symm e))

-- For every project, whatever the sorts make of equivalent elements and whatever the doubles and floats
-- compute, the flattener ends with a schedule. Its events are in the order of their frames, at one frame
-- the note-offs before the note-ons. Each is addressed to a channel or an insert that the project has,
-- with a key of 0 to 127 where it is a note's, and each note-on has a note-off of its channel and key in
-- a later frame.
pub flatten_lem :
    (doubles : Doubles) (floats : Floats doubles) (sorts : Sorts) (p : Project)
    (rate generation : ℕ)
    → AreSorts sorts
    → (r : FlattenResult) × (flatten doubles floats sorts p rate generation ≡ some r)
      × (is_sorted event_before r.schedule.events ≡ true)
      × All (λ e. event_addressed (sizes_of p) e ≡ true) r.schedule.events
      × All (λ e. is_ended r.schedule.events e ≡ true) r.schedule.events
unfolding flatten
flatten_lem doubles floats sorts p rate generation ok =
    let r = resolve_project-Addressed doubles floats p in
    let frames = to_frames doubles floats (floats.of_bits rate) p.transport.tempo in
    let b = emit_all sorts frames r.0 in
    let l = build_lem b rate generation in
    let s =
      Sound-Perm (sizes_of p) _ b.events l.0
        (emit_all-Sound (sizes_of p) sorts frames r.0 ok r.2) in
    rw (r.1, flatten) (_, refl, l.1, s.addressed, s.ended)
