-- ===== src/Flatten/Emit/Events.antt =====
-- The events that `flatten` of engine/src/model/flattener.cpp emits, loop by loop.
pub mod Whole
use mathlib.Core.List.{Perm, append_assoc}
use mathlib.Core.List.Perm
use onebeat.Prelude.{
  ℕ, ◌≡◌, refl, sym, subst, Bool, true, false, not, ◌&&◌, ◌||◌, List, [], ◌∷◌, ◌++◌, some, arith,
  ltb, ◌==◌, All, All-append, All-map_pred, any,
}
use onebeat.Prelude.Members.{any-Mem, any-Perm, All-Mem, Mem-All, All-Perm}
use onebeat.Prelude.Int.{ℤ, pos, ◌+ℤ◌, ◌-ℤ◌, ltb_ℤ, leb_ℤ, eq_ℤ, max_ℤ, +ℤ_parts}
use onebeat.Prelude.Sorting.{is_sorted}
use onebeat.Notes.{Ticks}
use onebeat.Project.{Project}
use onebeat.Schedule.{
  ScheduleEvent, ScheduleBuilder, new_builder, EventType, event_code, event_before, add_note,
  add_event, add_param_value, add_effect_param, add_audio_start, set_length_frames, param_event,
  one_float,
}
use onebeat.Schedule.Order.{build_lem}
use onebeat.Transport.{Doubles}
use onebeat.Flatten.{ResolvedNote, note_before, resolve_overlaps}
use onebeat.Flatten.Overlaps.{cut_from}
use onebeat.Flatten.Overlaps.Survive.{resolve_overlaps_lem}
use onebeat.Flatten.Resolve.Loops.{resolve_project}
use onebeat.Flatten.Resolve.{Floats, ResolvedParam, ResolvedEffectParam, ResolvedAudio, Resolved}
use onebeat.Flatten.Resolve.Channels.{is_audio_channel}
use onebeat.Flatten.Resolve.Loops.Ends.{resolve_project-Addressed}
use onebeat.Flatten.Resolve.Sound.{
  Sizes, sizes_of, note_addressed, param_addressed, effect_addressed, audio_addressed, Addressed,
}
use onebeat.Flatten.Emit.{
  param_before, effect_param_before, Sorts, FlattenResult, emit_notes, emit_params,
  emit_effect_params, emit_audio, emit_all, to_frames, flatten,
}

-- A note is for a channel of the rack and has a key of 0 to 127; a parameter is for the rack, an audio
-- start for an audio channel, and a parameter of an effect for an insert. There are no other events.
abbrev pub event_addressed : Sizes → ScheduleEvent → Bool
event_addressed z e =
    ((e.type == event_code EventType.note_on || e.type == event_code EventType.note_off)
      && (ltb e.instrument z.rack && (leb_ℤ (pos 0) e.note && leb_ℤ e.note (pos 127))))
    || ((e.type == event_code EventType.param_value && ltb e.instrument z.rack)
        || ((e.type == event_code EventType.audio_start
              && is_audio_channel z.rack z.audio e.instrument)
            || (e.type == event_code EventType.effect_param && ltb e.instrument z.inserts)))

-- The second is a note-off for the note-on that comes first, in a later frame.
abbrev pub ends_note : ScheduleEvent → ScheduleEvent → Bool
ends_note on off =
    off.type == event_code EventType.note_off
    && (off.instrument == on.instrument && (eq_ℤ off.note on.note && ltb_ℤ on.frame off.frame))

-- It is no note-on, or the list has its note-off.
abbrev pub is_ended : List ScheduleEvent → ScheduleEvent → Bool
is_ended es e = not (e.type == event_code EventType.note_on) || any (ends_note e) es

-- What the sorts do, whatever they make of equivalent elements.
pub record AreSorts (sorts : Sorts) : Type 0 where
  pub notes :
      (ns : List ResolvedNote)
      → Perm (sorts.notes ns) ns × (is_sorted note_before (sorts.notes ns) ≡ true)
  pub params :
      (qs : List ResolvedParam)
      → Perm (sorts.params qs) qs × (is_sorted param_before (sorts.params qs) ≡ true)
  pub effect_params :
      (qs : List ResolvedEffectParam)
      → Perm (sorts.effect_params qs) qs
        × (is_sorted effect_param_before (sorts.effect_params qs) ≡ true)

pub record Sound (z : Sizes) (es : List ScheduleEvent) : Type 0 where
  pub addressed : All (λ e. event_addressed z e ≡ true) es
  pub ended : All (λ e. is_ended es e ≡ true) es

any-append :
    {A : Type 0} (p : A → Bool) (xs ys : List A) → any p (xs ++ ys) ≡ (any p xs || any p ys)
any-append p [] ys = refl
any-append p (x ∷ xs) ys = ground (arith, any-append p xs ys)

Sound-append :
    (z : Sizes) (es fs : List ScheduleEvent) → Sound z es → Sound z fs → Sound z (es ++ fs)
Sound-append z es fs s t = record {
  addressed = All-append (λ e. event_addressed z e ≡ true) es fs s.addressed t.addressed;
  ended =
      All-append (λ e. is_ended (es ++ fs) e ≡ true) es fs
        (All-map_pred (λ e. is_ended es e ≡ true) (λ e. is_ended (es ++ fs) e ≡ true) es
          (λ e h. ground (arith, any-append (ends_note e) es fs)) s.ended)
        (All-map_pred (λ e. is_ended fs e ≡ true) (λ e. is_ended (es ++ fs) e ≡ true) fs
          (λ e h. ground (arith, any-append (ends_note e) es fs)) t.ended);
}

-- One event that is no note-on.
Sound-one :
    (z : Sizes) (e : ScheduleEvent)
    → event_addressed z e ≡ true
    → (e.type == event_code EventType.note_on) ≡ false
    → Sound z (e ∷ [])
Sound-one z e h k = record { addressed = (h, tt); ended = (ground (arith, k), tt) }

add_note-Sound :
    (z : Sizes) (b : ScheduleBuilder) (i : ℕ) (key : ℤ) (velocity : ℕ) (start duration : ℤ)
    → (ltb i z.rack && (leb_ℤ (pos 0) key && leb_ℤ key (pos 127))) ≡ true
    → ltb_ℤ (pos 0) duration ≡ true
    → Sound z b.events
    → Sound z (add_note b i key velocity start duration).events
unfolding add_note add_event
add_note-Sound z b i key velocity start duration h d s =
    subst (Sound z) (sym (append_assoc b.events (on ∷ []) (off ∷ []))) (
      Sound-append z b.events (on ∷ off ∷ []) s (record {
        addressed = (rw h refl, (rw h refl, tt));
        ended = (ground (arith, +ℤ_parts start duration), (refl, tt));
      }))
  where
    on : ScheduleEvent
    on = record {
      frame = start;
      instrument = i;
      type = 0;
      note = key;
      value = velocity;
      reserved = 0;
    }

    off : ScheduleEvent
    off = record {
      frame = start +ℤ duration;
      instrument = i;
      type = 1;
      note = key;
      value = 0;
      reserved = 0;
    }

module _ (z : Sizes) (frames : Ticks → ℤ) where
  pub emit_notes-Sound :
      (ns : List ResolvedNote) (b : ScheduleBuilder)
      → All (λ n. note_addressed z n ≡ true) ns
      → Sound z b.events
      → Sound z (emit_notes frames ns b).events
  unfolding emit_notes
  emit_notes-Sound [] b h s = s
  emit_notes-Sound (n ∷ ns) b h s =
      let duration = max_ℤ (pos 1) (frames n.end -ℤ frames n.start) in
      emit_notes-Sound ns (add_note b n.instrument n.key n.velocity (frames n.start) duration) h.1 (
        add_note-Sound z b n.instrument n.key n.velocity (frames n.start) duration h.0
          (ground arith) s)

  pub emit_params-Sound :
      (qs : List ResolvedParam) (b : ScheduleBuilder)
      → All (λ q. param_addressed z q ≡ true) qs
      → Sound z b.events
      → Sound z (emit_params frames qs b).events
  unfolding emit_params add_param_value add_event
  emit_params-Sound [] b h s = s
  emit_params-Sound (q ∷ qs) b h s =
      let event =
        param_event EventType.param_value q.instrument q.parameter q.value (frames q.position) in
      emit_params-Sound qs (add_param_value b q.instrument q.parameter q.value (frames q.position))
        h.1 (Sound-append z b.events (event ∷ []) s (Sound-one z event (rw h.0 refl) refl))

  pub emit_effect_params-Sound :
      (qs : List ResolvedEffectParam) (b : ScheduleBuilder)
      → All (λ q. effect_addressed z q ≡ true) qs
      → Sound z b.events
      → Sound z (emit_effect_params frames qs b).events
  unfolding emit_effect_params add_effect_param add_event
  emit_effect_params-Sound [] b h s = s
  emit_effect_params-Sound (q ∷ qs) b h s =
      let event =
        param_event EventType.effect_param q.effect q.parameter q.value (frames q.position) in
      emit_effect_params-Sound qs
        (add_effect_param b q.effect q.parameter q.value (frames q.position)) h.1
        (Sound-append z b.events (event ∷ []) s (Sound-one z event (rw h.0 refl) refl))

  pub emit_audio-Sound :
      (starts : List ResolvedAudio) (b : ScheduleBuilder)
      → All (λ a. audio_addressed z a ≡ true) starts
      → Sound z b.events
      → Sound z (emit_audio frames starts b).events
  unfolding emit_audio add_audio_start add_event
  emit_audio-Sound [] b h s = s
  emit_audio-Sound (a ∷ rest) b h s =
      let event = param_event EventType.audio_start a.channel 0 one_float (frames a.start) in
      emit_audio-Sound rest (add_audio_start b a.channel (frames a.start)) h.1
        (Sound-append z b.events (event ∷ []) s (Sound-one z event (rw h.0 refl) refl))
