-- ===== src/Transport/Run.antt =====
-- How a block is played: Engine::runSchedule in engine/src/core/engine.cpp, with the part of
-- processChunk that moves the clock. `as_double` reads the float of a tempo event.
use onebeat.Prelude.{
  ℕ, zero, suc, ◌+◌, ◌*◌, ◌-◌, ◌≤◌, ◌<◌, ◌≡◌, refl, subst, ◌⊎◌, inl, inr, Bool, true, false, ◌&&◌,
  List, [], ◌∷◌, Option, none, some, ltb, ◌==◌, Bool-cases, arith, if◌then◌else◌,
}
use onebeat.Prelude.Int.{ℤ, pos, pos_part, ◌+ℤ◌, ◌≤ℤ◌, leb_ℤ, -ℤ_parts}
use onebeat.Schedule.{ScheduleEvent, Schedule, tempo_change, event_code, chunk_events}
use onebeat.Transport.{
  Doubles, Transport, loop_start_frames, loop_end_frames, seek_frames, set_tempo, advance,
  frames_until_loop_wrap, beats_to_frames,
}

-- A call of processChunk: where in the block, how many frames, from where in the schedule; whether the
-- block's events ride along, and whether all notes are released first.
pub record Chunk : Type 0 where
  pub offset : ℕ
  pub frames : ℕ
  pub chunk_start : ℤ
  pub first_chunk : Bool
  pub release_all : Bool

-- The chunks follow each other from an offset on, none of them empty, and the block's events and
-- nothing else ride with the first.
abbrev pub Tiles : ℕ → Bool → List Chunk → ℕ → Type 0
Tiles offset first [] end = offset ≡ end
Tiles offset first (c ∷ cs) end =
    (c.offset ≡ offset)
    × (0 < c.frames)
    × (c.first_chunk ≡ first)
    × Tiles (offset + c.frames) false cs end

-- The loop ends at or before where a wrap leads.
abbrev pub IsDegenerate : (doubles : Doubles) → Transport doubles → Type 0
IsDegenerate doubles t = (t.loop_enabled ≡ true) × (loop_end_frames doubles t ≤ℤ t.position_frames)

module _ (doubles : Doubles) (as_double : ℕ → doubles.Double) where
  -- The tempo events of a chunk, each applied to the clock.
  abbrev pub set_tempos : Transport doubles → List ScheduleEvent → Transport doubles
  set_tempos t [] = t
  set_tempos t (e ∷ es) =
      set_tempos
        (if e.type == event_code tempo_change then set_tempo doubles t (as_double e.value) else t)
        es

  abbrev pub found : Option (List ScheduleEvent) → List ScheduleEvent
  found none = []
  found (some es) = es

  abbrev pub process_chunk : Option Schedule → Transport doubles → ℤ → Transport doubles
  process_chunk none t frames = t
  process_chunk (some s) t frames =
      set_tempos t (found (chunk_events s t.position_frames (t.position_frames +ℤ frames)))

  -- What a block leaves: the clock, a pending release, the calls of processChunk, and the frames that
  -- the loop did not get to.
  pub record Rendered : Type 0 where
    pub transport : Transport doubles
    pub pending : Bool
    pub chunks : List Chunk
    pub remaining : ℕ

  abbrev pub put_chunk : Chunk → Option Rendered → Option Rendered
  put_chunk c none = none
  put_chunk c (some r) = some (record r { chunks = c ∷ r.chunks })

  abbrev pub wrapped : Transport doubles → Transport doubles
  wrapped t = seek_frames doubles t (loop_start_frames doubles t)

  -- After a chunk: is the end of the loop reached?
  abbrev pub at_end : Transport doubles → Bool
  at_end t = t.loop_enabled && leb_ℤ (loop_end_frames doubles t) t.position_frames

  module _ (schedule : Option Schedule) where
    abbrev pub after_chunk : Transport doubles → ℤ → Transport doubles
    after_chunk t chunk = advance doubles (process_chunk schedule t chunk) chunk

    -- The while loop, on fuel; `none` is a loop that has not ended.
    pub run_loop :
        ℕ
        → Transport doubles
        → (pending : Bool) → (remaining offset wrap_guard : ℕ) → (first : Bool) → Option Rendered
    run_loop zero t pending remaining offset wrap_guard first =
        if remaining == 0
        then some (record { transport = t; pending = pending; chunks = []; remaining = 0 })
        else none
    run_loop (suc fuel) t pending remaining offset wrap_guard first = elim (remaining == 0) [
      | true ↦ some (record { transport = t; pending = pending; chunks = []; remaining = 0 })
      | false ↦ elim (leb_ℤ (frames_until_loop_wrap doubles t (pos remaining)) (pos 0)) [
        | true ↦ elim (ltb 8 (wrap_guard + 1)) [
          | true ↦
              some (record {
                transport = wrapped t;
                pending = true;
                chunks = [];
                remaining = remaining;
              })
          | false ↦ run_loop fuel (wrapped t) true remaining offset (wrap_guard + 1) first
        ]
        | false ↦
            let chunk = frames_until_loop_wrap doubles t (pos remaining) in
            let n = pos_part chunk in
            let u = after_chunk t chunk in
            put_chunk
              (record {
                offset = offset;
                frames = n;
                chunk_start = t.position_frames;
                first_chunk = first;
                release_all = pending;
              })
              (run_loop fuel (if at_end u then wrapped u else u) (at_end u) (remaining - n)
                (offset + n) 0 false)
      ]
    ]

    -- Ten rounds for each frame are enough.
    pub run_schedule : Transport doubles → Bool → ℕ → ℕ → Option Rendered
    unfolding run_loop
    run_schedule t pending block_offset num_frames =
        run_loop (10 * num_frames + 9) t pending num_frames block_offset 0 true

    abbrev pub Played : ℕ → ℕ → Bool → Option Rendered → Type 0
    Played offset remaining first none = ⊥
    Played offset remaining first (some r) =
        Tiles offset first r.chunks (offset + (remaining - r.remaining))
        × (r.remaining ≤ remaining)
        × ((r.remaining ≡ 0) ⊎ IsDegenerate doubles r.transport)

    chunk_bounds :
        (t : Transport doubles) (remaining : ℕ)
        → leb_ℤ (frames_until_loop_wrap doubles t (pos remaining)) (pos 0) ≡ false
        → (0 < pos_part (frames_until_loop_wrap doubles t (pos remaining)))
          × (pos_part (frames_until_loop_wrap doubles t (pos remaining)) ≤ remaining)
    unfolding frames_until_loop_wrap
    chunk_bounds t remaining h = elim (Bool-cases t.loop_enabled) [
      | inr off ↦ ground arith
      | inl on ↦ elim (Bool-cases (leb_ℤ (loop_end_frames doubles t) t.position_frames)) [
        | inl past ↦ ground arith
        | inr before ↦ ground (arith, -ℤ_parts (loop_end_frames doubles t) t.position_frames)
      ]
    ]

    chunk_none :
        (t : Transport doubles) (remaining : ℕ)
        → 0 < remaining
        → leb_ℤ (frames_until_loop_wrap doubles t (pos remaining)) (pos 0) ≡ true
        → IsDegenerate doubles t
    unfolding frames_until_loop_wrap
    chunk_none t remaining p h = elim (Bool-cases t.loop_enabled) [
      | inr off ↦ ground arith
      | inl on ↦ elim (Bool-cases (leb_ℤ (loop_end_frames doubles t) t.position_frames)) [
        | inl past ↦ (on, ground arith)
        | inr before ↦ ground (arith, -ℤ_parts (loop_end_frames doubles t) t.position_frames)
      ]
    ]

    -- a wrap leads to where the next wrap would lead
    wrapped_still :
        (t : Transport doubles)
        → (wrapped t).position_frames ≡ (wrapped (wrapped t)).position_frames
    unfolding seek_frames loop_start_frames
    wrapped_still t = refl

    wrapped-IsDegenerate :
        (t : Transport doubles)
        → t.position_frames ≡ (wrapped t).position_frames
        → IsDegenerate doubles t
        → IsDegenerate doubles (wrapped t)
    unfolding seek_frames loop_end_frames
    wrapped-IsDegenerate t e h =
        (h.0, subst (λ k. beats_to_frames doubles t.clock t.loop_end_beats ≤ℤ k) e h.1)

    put-Played :
        (c : Chunk) (offset remaining : ℕ) (first : Bool) (r : Option Rendered)
        → c.offset ≡ offset
        → 0 < c.frames
        → c.frames ≤ remaining
        → c.first_chunk ≡ first
        → Played (offset + c.frames) (remaining - c.frames) false r
        → Played offset remaining first (put_chunk c r)
    put-Played c offset remaining first none o p q f h = h
    put-Played c offset remaining first (some r) o p q f h =
        let e : offset + c.frames + (remaining - c.frames - r.remaining)
            ≡ offset + (remaining - r.remaining) =
          omega arith in
        ((o, p, f, subst (Tiles (offset + c.frames) false r.chunks) e h.0), omega arith, h.2)

    run_loop-Played :
        (fuel : ℕ) (t : Transport doubles) (pending : Bool) (remaining offset guard : ℕ)
        (first : Bool)
        → guard ≤ 8
        → 10 * remaining + (9 - guard) ≤ fuel
        → (0 < guard → t.position_frames ≡ (wrapped t).position_frames)
        → Played offset remaining first (run_loop fuel t pending remaining offset guard first)
    unfolding run_loop
    run_loop-Played zero t pending remaining offset guard first g m w = absurd (omega arith)
    run_loop-Played (suc fuel) t pending remaining offset guard first g m w =
        elim (Bool-cases (remaining == 0)) [
          | inl done ↦ rw (done, run_loop) (ground arith, omega arith, inl refl)
          | inr more ↦
              elim (Bool-cases (leb_ℤ (frames_until_loop_wrap doubles t (pos remaining)) (pos 0))) [
                | inl none_left ↦
                    let bad : IsDegenerate doubles t =
                      chunk_none t remaining (ground arith) none_left in
                    elim (Bool-cases (ltb 8 (guard + 1))) [
                      | inl out ↦
                          rw (more, none_left, out, run_loop)
                            (
                              ground arith,
                              omega arith,
                              inr (wrapped-IsDegenerate t (w (ground arith)) bad),
                            )
                      | inr again ↦
                          rw (more, none_left, again, run_loop)
                            (run_loop-Played fuel (wrapped t) true remaining offset (guard + 1)
                              first (ground arith) (ground arith) (λ p. wrapped_still t))
                    ]
                | inr some_left ↦
                    let b = chunk_bounds t remaining some_left in
                    let chunk = frames_until_loop_wrap doubles t (pos remaining) in
                    let u = after_chunk t chunk in
                    let c : Chunk = record {
                      offset = offset;
                      frames = pos_part chunk;
                      chunk_start = t.position_frames;
                      first_chunk = first;
                      release_all = pending;
                    } in
                    rw (more, some_left, run_loop)
                      (put-Played c offset remaining first
                        (run_loop fuel (if at_end u then wrapped u else u) (at_end u)
                          (remaining - pos_part chunk) (offset + pos_part chunk) 0 false)
                        refl b.0 b.1 refl
                        (run_loop-Played fuel (if at_end u then wrapped u else u) (at_end u)
                          (remaining - pos_part chunk) (offset + pos_part chunk) 0 false
                          (omega arith) (omega (arith, b)) (λ p. absurd (omega arith))))
              ]
        ]

    returned :
        (offset remaining : ℕ) (first : Bool) (o : Option Rendered)
        → Played offset remaining first o
        → (r : Rendered) × (o ≡ some r)
          × Tiles offset first r.chunks (offset + (remaining - r.remaining))
          × (r.remaining ≤ remaining)
          × ((r.remaining ≡ 0) ⊎ IsDegenerate doubles r.transport)
    returned offset remaining first none h = absurd h
    returned offset remaining first (some r) h = (r, refl, h.0, h.1, h.2)

    -- Playing a block ends, whatever the clock, the loop and the tempo events of the schedule: the
    -- chunks are not empty and lie end to end from the block's offset, the block's own events ride with
    -- the first and no other; and they fill the block, unless the loop ends at or before the frame that
    -- a wrap leads to, where the rest of the block is given up.
    pub run_schedule_lem :
        (t : Transport doubles) (pending : Bool) (block_offset num_frames : ℕ)
        → (r : Rendered) × (run_schedule t pending block_offset num_frames ≡ some r)
          × Tiles block_offset true r.chunks (block_offset + (num_frames - r.remaining))
          × (r.remaining ≤ num_frames)
          × ((r.remaining ≡ 0) ⊎ IsDegenerate doubles r.transport)
    unfolding run_schedule
    run_schedule_lem t pending block_offset num_frames = returned block_offset num_frames true _ (
        run_loop-Played (10 * num_frames + 9) t pending num_frames block_offset 0 true (omega arith)
          (omega arith) (λ p. absurd (omega arith)))
