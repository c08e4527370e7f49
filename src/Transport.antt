-- ===== src/Transport.antt =====
-- The engine clock: engine/src/core/time_map.h and transport.h. What a double computes is a parameter:
-- the record `Doubles` has the operations that the two files use.
pub mod Tempo
pub mod Run
use onebeat.Prelude.{
  ℕ, zero, suc, ◌+◌, ◌-◌, ◌/◌, ◌%◌, Bool, true, false, not, ◌&&◌, leb, ltb, if◌then◌else◌,
}
use onebeat.Prelude.Int.{ℤ, pos, negsuc, pos_part, ◌+ℤ◌, ◌-ℤ◌, ltb_ℤ, leb_ℤ, eq_ℤ}

pub record Doubles : Type 1 where
  pub Double : Type 0
  -- a > b, false where either is no number
  pub gt : Double → Double → Bool
  pub ge : Double → Double → Bool
  pub mul : Double → Double → Double
  pub div : Double → Double → Double
  pub sub : Double → Double → Double
  pub floor : Double → Double
  -- the cast from `int64_t`, and the cast to it
  pub of_int : ℤ → Double
  pub to_int : Double → ℤ
  pub llround : Double → ℤ
  -- 20.0 and 999.0
  pub min_tempo_bpm : Double
  pub max_tempo_bpm : Double

pub record MusicalPosition : Type 0 where
  pub bar : ℤ
  pub beat : ℤ
  pub tick : ℤ

abbrev pub beats_per_bar : ℕ
beats_per_bar = 4

abbrev pub ticks_per_beat : ℕ
ticks_per_beat = 960

module _ (doubles : Doubles) where
  open doubles use {
    Double, gt, ge, mul, div, sub, floor, of_int, to_int, llround, min_tempo_bpm, max_tempo_bpm,
  }

  pub record TimeMap : Type 0 where
    pub sample_rate : Double
    pub tempo_bpm : Double

  pub clamp_tempo : Double → Double
  clamp_tempo bpm =
      if not (gt bpm min_tempo_bpm)
      then min_tempo_bpm
      else if gt bpm max_tempo_bpm
      then max_tempo_bpm
      else bpm

  pub time_map : Double → Double → TimeMap
  unfolding clamp_tempo
  time_map sample_rate tempo_bpm = record {
    sample_rate = sample_rate;
    tempo_bpm = clamp_tempo tempo_bpm;
  }

  pub frames_per_beat : TimeMap → Double
  frames_per_beat m = div (mul m.sample_rate (of_int (pos 60))) m.tempo_bpm

  pub frames_to_beats : TimeMap → ℤ → Double
  unfolding frames_per_beat
  frames_to_beats m frames = div (of_int frames) (frames_per_beat m)

  pub beats_to_frames : TimeMap → Double → ℤ
  unfolding frames_per_beat
  beats_to_frames m beats = llround (mul beats (frames_per_beat m))

  -- `whole_beats` at 0 or above.
  abbrev pub whole_part : ℤ → ℕ
  whole_part beats = pos_part beats

  pub musical_position : TimeMap → ℤ → MusicalPosition
  musical_position m frames =
      let beats = frames_to_beats m frames in
      let floored = floor beats in
      let whole_beats = whole_part (to_int floored) in
      let tick = to_int (mul (sub beats floored) (of_int (pos ticks_per_beat))) in
      record {
        bar = pos (whole_beats / beats_per_bar + 1);
        beat = pos (whole_beats % beats_per_bar + 1);
        tick = if leb_ℤ (pos ticks_per_beat) tick then pos (ticks_per_beat - 1) else tick;
      }

  pub record Transport : Type 0 where
    pub clock : TimeMap
    pub position_frames : ℤ
    pub loop_start_beats : Double
    pub loop_end_beats : Double
    pub playing : Bool
    pub loop_enabled : Bool

  pub new_transport : Transport
  unfolding time_map
  new_transport = record {
    clock = time_map (of_int (pos 48000)) (of_int (pos 120));
    position_frames = pos 0;
    loop_start_beats = of_int (pos 0);
    loop_end_beats = of_int (pos 16);
    playing = false;
    loop_enabled = true;
  }

  pub prepare : Transport → Double → Double → Transport
  unfolding time_map
  prepare t sample_rate tempo_bpm = record t {
    clock = time_map sample_rate tempo_bpm;
    position_frames = pos 0;
    playing = false;
  }

  pub play : Transport → Transport
  play t = record t { playing = true }

  pub stop : Transport → Transport
  stop t = record t { playing = false }

  pub loop_start_frames : Transport → ℤ
  loop_start_frames t = beats_to_frames t.clock t.loop_start_beats

  pub loop_end_frames : Transport → ℤ
  loop_end_frames t = beats_to_frames t.clock t.loop_end_beats

  pub seek_frames : Transport → ℤ → Transport
  seek_frames t frames = record t {
    position_frames = if ltb_ℤ frames (pos 0) then pos 0 else frames;
  }

  pub seek_beats : Transport → Double → Transport
  unfolding seek_frames
  seek_beats t beats =
      seek_frames t
        (beats_to_frames t.clock (if gt (of_int (pos 0)) beats then of_int (pos 0) else beats))

  -- The beat under the old tempo is kept under the new one.
  pub set_tempo : Transport → Double → Transport
  set_tempo t bpm =
      let beats = frames_to_beats t.clock t.position_frames in
      let clock = record t.clock { tempo_bpm = clamp_tempo bpm } in
      record t { clock = clock; position_frames = beats_to_frames clock beats }

  pub set_sample_rate : Transport → Double → Transport
  set_sample_rate t sample_rate =
      let beats = frames_to_beats t.clock t.position_frames in
      let clock = record t.clock { sample_rate = sample_rate } in
      record t { clock = clock; position_frames = beats_to_frames clock beats }

  pub set_loop : Transport → Double → Double → Bool → Transport
  set_loop t start_beats end_beats enabled =
      if gt end_beats start_beats && ge start_beats (of_int (pos 0))
      then record t {
        loop_start_beats = start_beats;
        loop_end_beats = end_beats;
        loop_enabled = enabled;
      }
      else record t { loop_enabled = enabled }

  pub advance : Transport → ℤ → Transport
  advance t frames = record t { position_frames = t.position_frames +ℤ frames }

  pub frames_until_loop_wrap : Transport → ℤ → ℤ
  frames_until_loop_wrap t frames =
      let end = loop_end_frames t in
      if not t.loop_enabled
      then frames
      else if leb_ℤ end t.position_frames
      then pos 0
      else let remaining = end -ℤ t.position_frames in
        if ltb_ℤ remaining frames then remaining else frames
