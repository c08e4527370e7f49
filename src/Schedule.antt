-- ===== src/Schedule.antt =====
-- The schedule of events that the audio thread plays: engine/src/core/schedule.h and schedule.cpp, and
-- the loop by which engine.cpp walks the events of a chunk. A float is its bit pattern.
pub mod Order
pub mod Search
pub mod Chunks
use onebeat.Prelude.{
  ℕ, zero, suc, ◌+◌, ◌-◌, ◌/◌, Bool, true, false, not, ◌&&◌, List, [], ◌∷◌, ◌++◌, Option, none,
  some, ltb, ◌==◌, if◌then◌else◌, length, get_elem?, drop,
}
use onebeat.Prelude.Int.{ℤ, pos, negsuc, ◌+ℤ◌, ltb_ℤ, leb_ℤ, eq_ℤ}
use onebeat.Prelude.Sorting.{stable_sort}

pub data EventType : Type 0 where
  note_on note_off tempo_change param_value param_modulation audio_start effect_param : EventType

abbrev pub event_code : EventType → ℕ
event_code note_on = 0
event_code note_off = 1
event_code tempo_change = 2
event_code param_value = 3
event_code param_modulation = 4
event_code audio_start = 5
event_code effect_param = 6

pub record ScheduleEvent : Type 0 where
  pub frame : ℤ
  pub instrument : ℕ
  pub type : ℕ
  pub note : ℤ
  pub value : ℕ
  pub reserved : ℕ

pub record Schedule : Type 0 where
  pub events : List ScheduleEvent
  pub length_frames : ℤ
  pub sample_rate : ℕ
  pub generation : ℕ

-- The while loop of `lowerBound`, on fuel; `none` is a loop that has not ended.
pub lower_bound_loop : ℕ → List ScheduleEvent → ℤ → ℕ → ℕ → Option ℕ
lower_bound_loop zero events frame low high = if ltb low high then none else some low
lower_bound_loop (suc fuel) events frame low high =
    let mid = low + (high - low) / 2 in
    elim (ltb low high) [
      | false ↦ some low
      | true ↦ elim (get_elem? events mid) [
        | none ↦ none
        | some event ↦
            lower_bound_loop fuel events frame (if ltb_ℤ event.frame frame then mid + 1 else low)
              (if ltb_ℤ event.frame frame then high else mid)
      ]
    ]

-- The interval shrinks in each round, so its length is fuel enough.
pub lower_bound : Schedule → ℤ → Option ℕ
lower_bound s frame = lower_bound_loop (length s.events) s.events frame 0 (length s.events)

pub record ScheduleBuilder : Type 0 where
  pub events : List ScheduleEvent
  pub length_frames : ℤ

abbrev pub new_builder : ScheduleBuilder
new_builder = record { events = []; length_frames = pos 0 }

unfoldable pub add_event : ScheduleBuilder → ScheduleEvent → ScheduleBuilder
add_event b event = record b { events = b.events ++ event ∷ [] }

unfoldable pub add_note : ScheduleBuilder → ℕ → ℤ → ℕ → ℤ → ℤ → ScheduleBuilder
unfolding add_event
add_note b instrument note velocity start_frame duration_frames =
    add_event
      (add_event b (record {
        frame = start_frame;
        instrument = instrument;
        type = event_code note_on;
        note = note;
        value = velocity;
        reserved = 0;
      }))
      (record {
        frame = start_frame +ℤ duration_frames;
        instrument = instrument;
        type = event_code note_off;
        note = note;
        value = 0;
        reserved = 0;
      })

abbrev pub param_event : EventType → ℕ → ℕ → ℕ → ℤ → ScheduleEvent
param_event type instrument param value frame = record {
  frame = frame;
  instrument = instrument;
  type = event_code type;
  note = negsuc 0;
  value = value;
  reserved = param;
}

unfoldable pub add_param_value : ScheduleBuilder → ℕ → ℕ → ℕ → ℤ → ScheduleBuilder
unfolding add_event
add_param_value b instrument param value frame =
    add_event b (param_event param_value instrument param value frame)

pub add_param_modulation : ScheduleBuilder → ℕ → ℕ → ℕ → ℤ → ScheduleBuilder
unfolding add_event
add_param_modulation b instrument param amount frame =
    add_event b (param_event param_modulation instrument param amount frame)

unfoldable pub add_effect_param : ScheduleBuilder → ℕ → ℕ → ℕ → ℤ → ScheduleBuilder
unfolding add_event
add_effect_param b effect param value frame =
    add_event b (param_event effect_param effect param value frame)

-- 1.0F
abbrev pub one_float : ℕ
one_float = 0x3f800000

unfoldable pub add_audio_start : ScheduleBuilder → ℕ → ℤ → ScheduleBuilder
unfolding add_event
add_audio_start b instrument frame =
    add_event b (param_event audio_start instrument 0 one_float frame)

unfoldable pub set_length_frames : ScheduleBuilder → ℤ → ScheduleBuilder
set_length_frames b frames = record b { length_frames = frames }

-- The comparison of `build`.
pub event_before : ScheduleEvent → ScheduleEvent → Bool
event_before lhs rhs =
    if not (eq_ℤ lhs.frame rhs.frame) then ltb_ℤ lhs.frame rhs.frame else ltb rhs.type lhs.type

-- `events_.back().frame`, or the length where there is no event.
abbrev pub back_frame : ℤ → List ScheduleEvent → ℤ
back_frame length_frames [] = length_frames
back_frame length_frames (event ∷ rest) = back_frame event.frame rest

pub build : ScheduleBuilder → ℕ → ℕ → Schedule
build b sample_rate generation =
    let sorted = stable_sort event_before b.events in
    record {
      events = sorted;
      length_frames =
          if leb_ℤ b.length_frames (pos 0)
          then back_frame b.length_frames sorted
          else b.length_frames;
      sample_rate = sample_rate;
      generation = generation;
    }

-- From a cursor on, the events before the end of a chunk.
abbrev pub before_end : ℤ → List ScheduleEvent → List ScheduleEvent
before_end chunk_end [] = []
before_end chunk_end (event ∷ rest) =
    let later = before_end chunk_end rest in
    if ltb_ℤ event.frame chunk_end then event ∷ later else []

-- The events that a walk over a chunk visits, in order: the loop over `cursor` in `processChunk`.
pub chunk_events : Schedule → ℤ → ℤ → Option (List ScheduleEvent)
chunk_events s chunk_start chunk_end = elim (lower_bound s chunk_start) [
  | none ↦ none
  | some cursor ↦ some (before_end chunk_end (drop cursor s.events))
]
