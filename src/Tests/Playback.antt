-- ===== src/Tests/Playback.antt =====
-- Schedules and the clock, on concrete events and with whole numbers for doubles.
use mathlib.Core.List.{Perm}
use onebeat.Prelude.{
  ℕ, ◌+◌, ◌-◌, ◌/◌, ◌≤◌, ◌<◌, ◌≡◌, refl, arith, ◌↔◌, ◌⊎◌, true, false, List, [], ◌∷◌, ◌++◌, some,
  length, get_elem?, keep_if, All,
}
use onebeat.Prelude.Int.{ℤ, pos, pos_part, ◌≤ℤ◌, ◌<ℤ◌, ltb_ℤ, leb_ℤ, ◌*ℤ◌, ◌-ℤ◌}
use onebeat.Prelude.Sorting.{is_sorted}
use onebeat.Prelude.Sorting.Stable.{equivalent}
use onebeat.Schedule.{
  ScheduleEvent, ScheduleBuilder, new_builder, add_note, event_before, build, lower_bound,
  chunk_events,
}
use onebeat.Schedule.Order.{event_order, build_lem}
use onebeat.Schedule.Search.{lower_bound_lem}
use onebeat.Schedule.Chunks.{falls_in, chunk_events_lem}
use onebeat.Transport.{Doubles, Transport, TimeMap, new_transport}
use onebeat.Transport.Tempo.{
  IsSound, set_tempo_call, set_loop_call, play_call, perform_all, perform_all-IsSound,
}
use onebeat.Transport.Run.{Rendered, Tiles, IsDegenerate, run_schedule, run_schedule_lem}

-- two notes that meet at frame 100
abbrev two_notes : ScheduleBuilder
two_notes =
    add_note (add_note new_builder 0 (pos 60) 1 (pos 100) (pos 50)) 0 (pos 60) 1 (pos 0) (pos 100)

build_lem_example :
    let s = build two_notes 48000 1 in
    Perm s.events two_notes.events
    × (is_sorted event_before s.events ≡ true)
    × ((e : ScheduleEvent)
        → keep_if (equivalent event_order e) s.events
          ≡ keep_if (equivalent event_order e) two_notes.events)
    × ((pos 0 <ℤ two_notes.length_frames → s.length_frames ≡ two_notes.length_frames)
        × (two_notes.length_frames ≤ℤ pos 0
            → All (λ e. e.frame ≤ℤ s.length_frames) s.events
              × ((front : List ScheduleEvent) (e : ScheduleEvent)
                  → s.events ≡ front ++ e ∷ []
                  → s.length_frames ≡ e.frame)
              × (s.events ≡ [] → s.length_frames ≡ two_notes.length_frames)))
build_lem_example = build_lem two_notes 48000 1

lower_bound_lem_example :
    let s = build two_notes 48000 1 in
    (r : ℕ) × (lower_bound s (pos 100) ≡ some r)
    × (r ≤ length s.events)
    × ((i : ℕ) (e : ScheduleEvent) → get_elem? s.events i ≡ some e → (e.frame <ℤ pos 100) ↔ (i < r))
lower_bound_lem_example = lower_bound_lem two_notes 48000 1 (pos 100)

chunk_events_lem_example :
    let s = build two_notes 48000 1 in
    (chunk_events s (pos 0) (pos 128) ≡ some (keep_if (falls_in (pos 0) (pos 128)) s.events))
    × ((l r : List ScheduleEvent)
        → chunk_events s (pos 0) (pos 100) ≡ some l
        → chunk_events s (pos 100) (pos 128) ≡ some r
        → chunk_events s (pos 0) (pos 128) ≡ some (l ++ r))
chunk_events_lem_example =
    chunk_events_lem two_notes 48000 1 (pos 0) (pos 100) (pos 128) (omega arith) (omega arith)

abbrev pub whole : Doubles
whole = record {
  Double = ℤ;
  gt = λ a b. ltb_ℤ b a;
  ge = λ a b. leb_ℤ b a;
  mul = ◌*ℤ◌;
  div = λ a b. pos (pos_part a / pos_part b);
  sub = ◌-ℤ◌;
  floor = λ a. a;
  of_int = λ a. a;
  to_int = λ a. a;
  llround = λ a. a;
  min_tempo_bpm = pos 20;
  max_tempo_bpm = pos 999;
}

perform_all-IsSound_example : IsSound whole (
    perform_all whole
      (new_transport whole)
      (set_tempo_call (pos 5000) ∷ set_loop_call (pos 8) (pos 4) true ∷ play_call ∷ []))
perform_all-IsSound_example =
    perform_all-IsSound whole
      (set_tempo_call (pos 5000) ∷ set_loop_call (pos 8) (pos 4) true ∷ play_call ∷ []) refl refl

abbrev steady : TimeMap whole
steady = record { sample_rate = pos 48000; tempo_bpm = pos 120 }

-- a loop of one frame's worth of beats, and a block longer than it
abbrev looping : Transport whole
looping = record {
  clock = record { sample_rate = pos 1; tempo_bpm = pos 20 };
  position_frames = pos 0;
  loop_start_beats = pos 0;
  loop_end_beats = pos 4;
  playing = true;
  loop_enabled = true;
}

run_schedule_lem_example :
    (r : Rendered whole (λ v. pos v)) × (run_schedule whole
        (λ v. pos v)
        (some (build two_notes 48000 1))
        looping
        false
        0
        30
      ≡ some r)
    × Tiles 0 true r.chunks (0 + (30 - r.remaining))
    × (r.remaining ≤ 30)
    × ((r.remaining ≡ 0) ⊎ IsDegenerate whole r.transport)
run_schedule_lem_example =
    run_schedule_lem whole (λ v. pos v) (some (build two_notes 48000 1)) looping false 0 30
