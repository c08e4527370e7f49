-- ===== src/Transport/Tempo.antt =====
-- The calls that set the tempo and the loop, and musical positions: engine/src/core/transport.h.
use onebeat.Prelude.{
  ◌+◌, ◌*◌, ◌-◌, ◌≡◌, refl, ◌⊎◌, inl, inr, Bool, true, false, List, [], ◌∷◌, Bool-cases, arith,
}
use onebeat.Prelude.Int.{ℤ, pos, ◌≤ℤ◌, pos_part}
use onebeat.Transport.{
  Doubles, TimeMap, Transport, clamp_tempo, time_map, frames_to_beats, whole_part, musical_position,
  new_transport, prepare, play, stop, seek_frames, seek_beats, set_tempo, set_sample_rate, set_loop,
  advance,
}

module _ (doubles : Doubles) where
  open doubles use {Double, gt, ge, of_int, to_int, floor, min_tempo_bpm, max_tempo_bpm}

  -- A call that the audio thread makes on the transport.
  pub data Call : Type 0 where
    prepare_call : (sample_rate tempo_bpm : Double) → Call
    play_call stop_call : Call
    seek_frames_call advance_call : (frames : ℤ) → Call
    seek_beats_call set_tempo_call set_sample_rate_call : (value : Double) → Call
    set_loop_call : (start_beats end_beats : Double) (enabled : Bool) → Call

  pub perform : Transport doubles → Call → Transport doubles
  perform t (prepare_call sample_rate tempo_bpm) = prepare doubles t sample_rate tempo_bpm
  perform t play_call = play doubles t
  perform t stop_call = stop doubles t
  perform t (seek_frames_call frames) = seek_frames doubles t frames
  perform t (advance_call frames) = advance doubles t frames
  perform t (seek_beats_call beats) = seek_beats doubles t beats
  perform t (set_tempo_call bpm) = set_tempo doubles t bpm
  perform t (set_sample_rate_call rate) = set_sample_rate doubles t rate
  perform t (set_loop_call start end enabled) = set_loop doubles t start end enabled

  pub perform_all : Transport doubles → List Call → Transport doubles
  perform_all t [] = t
  perform_all t (c ∷ cs) = perform_all (perform t c) cs

  -- One of the two limits, or above the lower and not above the upper; so never no number.
  abbrev pub IsTempo : Double → Type 0
  IsTempo x =
      (x ≡ min_tempo_bpm)
      ⊎ ((x ≡ max_tempo_bpm) ⊎ ((gt x min_tempo_bpm ≡ true) × (gt x max_tempo_bpm ≡ false)))

  pub record IsSound (t : Transport doubles) : Type 0 where
    pub tempo : IsTempo t.clock.tempo_bpm
    pub forward : gt t.loop_end_beats t.loop_start_beats ≡ true
    pub after_zero : ge t.loop_start_beats (of_int (pos 0)) ≡ true

  clamp_tempo-IsTempo : (x : Double) → IsTempo (clamp_tempo doubles x)
  unfolding clamp_tempo
  clamp_tempo-IsTempo x = elim (Bool-cases (gt x min_tempo_bpm)) [
    | inr low ↦ rw low (inl refl)
    | inl above ↦ elim (Bool-cases (gt x max_tempo_bpm)) [
      | inl high ↦ rw (above, high) (inr (inl refl))
      | inr within ↦ rw (above, within) (inr (inr (above, within)))
    ]
  ]

  perform-IsSound : (t : Transport doubles) (c : Call) → IsSound t → IsSound (perform t c)
  unfolding perform prepare time_map play stop seek_frames advance seek_beats set_tempo
      set_sample_rate set_loop
  perform-IsSound t (prepare_call rate bpm) h = record {
    tempo = clamp_tempo-IsTempo bpm;
    forward = h.forward;
    after_zero = h.after_zero;
  }
  perform-IsSound t play_call h = record {
    tempo = h.tempo;
    forward = h.forward;
    after_zero = h.after_zero;
  }
  perform-IsSound t stop_call h = record {
    tempo = h.tempo;
    forward = h.forward;
    after_zero = h.after_zero;
  }
  perform-IsSound t (seek_frames_call frames) h = record {
    tempo = h.tempo;
    forward = h.forward;
    after_zero = h.after_zero;
  }
  perform-IsSound t (advance_call frames) h = record {
    tempo = h.tempo;
    forward = h.forward;
    after_zero = h.after_zero;
  }
  perform-IsSound t (seek_beats_call beats) h = record {
    tempo = h.tempo;
    forward = h.forward;
    after_zero = h.after_zero;
  }
  perform-IsSound t (set_tempo_call bpm) h = record {
    tempo = clamp_tempo-IsTempo bpm;
    forward = h.forward;
    after_zero = h.after_zero;
  }
  perform-IsSound t (set_sample_rate_call rate) h = record {
    tempo = h.tempo;
    forward = h.forward;
    after_zero = h.after_zero;
  }
  perform-IsSound t (set_loop_call start end enabled) h = elim (Bool-cases (gt end start)) [
    | inr back ↦
        rw back (record { tempo = h.tempo; forward = h.forward; after_zero = h.after_zero })
    | inl ahead ↦ elim (Bool-cases (ge start (of_int (pos 0)))) [
      | inr before ↦
          rw (ahead, before)
            (record { tempo = h.tempo; forward = h.forward; after_zero = h.after_zero })
      | inl from ↦ rw (ahead, from) (record { tempo = h.tempo; forward = ahead; after_zero = from })
    ]
  ]

  -- Where 16.0 is above 0.0 and 0.0 is not below 0.0: after any calls on a new transport, with any
  -- doubles, which may be no numbers, its tempo is one of the two limits or lies between them, and its
  -- loop ends after it starts, at or after 0.
  pub perform_all-IsSound :
      (calls : List Call)
      → gt (of_int (pos 16)) (of_int (pos 0)) ≡ true
      → ge (of_int (pos 0)) (of_int (pos 0)) ≡ true
      → IsSound (perform_all (new_transport doubles) calls)
  unfolding perform_all new_transport time_map
  perform_all-IsSound calls up same =
      go calls (new_transport doubles)
        (record { tempo = clamp_tempo-IsTempo (of_int (pos 120)); forward = up; after_zero = same })
    where
      go : (calls : List Call) (t : Transport doubles) → IsSound t → IsSound (perform_all t calls)
      go [] t h = h
      go (c ∷ cs) t h = go cs (perform t c) (perform-IsSound t c h)

  -- A musical position, of any frame: the beat is 1 to 4, the tick at most 959, and bar and beat count
  -- the whole beats, a negative position being at the first.
  pub musical_position_lem :
      (m : TimeMap doubles) (frames : ℤ)
      → let p = musical_position doubles m frames in
        (pos 1 ≤ℤ p.bar)
        × (pos 1 ≤ℤ p.beat)
        × (p.beat ≤ℤ pos 4)
        × (p.tick ≤ℤ pos 959)
        × (4 * (pos_part p.bar - 1) + (pos_part p.beat - 1)
            ≡ whole_part doubles (to_int (floor (frames_to_beats doubles m frames))))
  unfolding musical_position
  musical_position_lem m frames = (omega arith, omega arith, omega arith, ground arith, omega arith)
