-- ===== src/Tests/Sound.antt =====
-- The integrity of the sample project.
use onebeat.Prelude.{
  ℕ, ◌<◌, ◌≡◌, ◌≢◌, refl, sym, ◌∙◌, inl, inr, arith, Bool, true, false, Option, none, some, List,
  [], ◌∷◌, if◌then◌else◌,
}
use onebeat.Prelude.Int.{pos, +ℤ_parts}
use onebeat.Prelude.Map.{find, has}
use onebeat.Prelude.Map.Keys.{found, Entrywise}
use onebeat.Notes.{Note, empty, sequence_is_sorted}
use onebeat.Notes.Order.{IsValidNote}
use onebeat.Ids.{MixerTrackId, raw_eq, raw_lt, raw_valid}
use onebeat.Ids.Order.{id_key, id_eq}
use onebeat.Entities.{MixerTrack, Pattern, ArrangementLane}
use onebeat.Project.Integrity.{
  Integrity, InstrumentOk, PatternOk, SequenceOk, LaneOk, ClipOk, MixerOk, SlotsOk,
}
use onebeat.Command.Commands.Clips.{ClipsFiled}
use onebeat.Entities.{Clip}
use onebeat.Tests.Data.{sample, note, two_notes, master, kick, lane}

tracks_lead_down :
    (k : MixerTrackId) (t : MixerTrack)
    → find k sample.mixer_tracks ≡ some t
    → (out : MixerTrackId) → t.output ≡ some out
    → (has out sample.mixer_tracks ≡ true) × ((out ≡ master) × (id_eq k master ≡ false))
unfolding find raw_eq
tracks_lead_down =
    found
      (λ k (t : MixerTrack).
        (out : MixerTrackId)
        → t.output ≡ some out
        → (has out sample.mixer_tracks ≡ true) × ((out ≡ master) × (id_eq k master ≡ false)))
      sample.mixer_tracks ((λ out e. absurd (ground arith)), ((λ out e. ground arith), tt))

mixer_ok : MixerOk sample.mixer_tracks sample.master
unfolding find raw_eq raw_valid
mixer_ok = record {
  master_there = refl;
  master_out = λ t e. ground arith;
  only_master =
      found (λ k (t : MixerTrack). t.output ≡ none → k ≡ master) sample.mixer_tracks
        ((λ _. refl), ((λ h. absurd (ground arith)), tt));
  outputs = λ k t out e f. (tracks_lead_down k t e out f).0;
  rank = λ k. if id_eq k master then 0 else 1;
  downhill = λ k t out e f.
      let (there, (bottom, top)) = tracks_lead_down k t e out f in rw (top, bottom) (ground arith);
  slots = found (λ _ (t : MixerTrack). SlotsOk t.effects) sample.mixer_tracks (tt, (tt, tt));
}

note_ok :
    (n : Note)
    → n.length ≡ pos 240
    → (a : ℕ) → n.start ≡ pos a
    → a < 1000
    → (b : ℕ) → n.key ≡ pos b
    → b < 128
    → n.velocity ≡ 100
    → IsValidNote n
note_ok n l a s small b k low v = record {
  starts = ground arith;
  lasts = ground arith;
  key_low = ground arith;
  key_high = ground arith;
  loud = ground arith;
  ends = ground (arith, +ℤ_parts n.start n.length);
}

pub sequence_ok : SequenceOk sample.instruments kick two_notes
unfolding find raw_eq sequence_is_sorted empty onebeat.Prelude.Sorting.is_sorted
    onebeat.Notes.note_order_before
sequence_ok = record {
  instrument = refl;
  sparse = refl;
  sorted = refl;
  notes = (
    note_ok (note 0 60) refl 0 refl (omega arith) 60 refl (omega arith) refl,
    (note_ok (note 960 64) refl 960 refl (omega arith) 64 refl (omega arith) refl, tt),
  );
}

clips_ok : Entrywise (λ _ c. ClipOk sample c) sample.clips
unfolding find raw_eq
clips_ok = (
  record { lane = refl; start = ground arith; length = ground arith; source = refl; window = tt },
  (
    record {
      lane = refl;
      start = ground arith;
      length = ground arith;
      source = refl;
      window = (ground arith, ground arith, inl refl);
    },
    (
      record {
        lane = refl;
        start = ground arith;
        length = ground arith;
        source = refl;
        window = tt;
      },
      tt,
    ),
  ),
)

pub sample-Integrity : Integrity sample
unfolding find raw_eq raw_lt
sample-Integrity = record {
  ordered = record {
    instruments = (tt, tt);
    patterns = (tt, tt);
    lanes = (tt, tt);
    clips = ((refl, (refl, tt)), ((refl, tt), (tt, tt)));
    mixer_tracks = ((refl, tt), (tt, tt));
  };
  instruments =
      found (λ _ i. InstrumentOk sample.mixer_tracks i) sample.instruments
        (record { routes = (refl, tt); ports = (tt, tt) }, tt);
  patterns =
      found (λ _ (q : Pattern). PatternOk sample.instruments q) sample.patterns
        (
          record {
            ordered = (tt, tt);
            each =
                found (λ i s. SequenceOk sample.instruments i s) ((kick, two_notes) ∷ [])
                  (sequence_ok, tt);
          },
          tt,
        );
  lanes =
      found (λ k l. LaneOk sample.lanes k l) sample.lanes
        (record { group = λ g e. absurd (ground arith) }, tt);
  lane_orders = λ j k l m e f h.
      let of_lane = found (λ i (_ : ArrangementLane). i ≡ lane) sample.lanes (refl, tt) in
      of_lane j l e ∙ sym (of_lane k m f);
  clips = found (λ _ c. ClipOk sample c) sample.clips clips_ok;
  mixer = mixer_ok;
}

pub sample-ClipsFiled : ClipsFiled sample
unfolding find raw_eq raw_valid
sample-ClipsFiled = record {
  ordered = sample-Integrity.ordered.clips;
  filed = found (λ k (c : Clip). c.id ≡ k) sample.clips (refl, (refl, (refl, tt)));
  valid = found (λ k (_ : Clip). raw_valid k.raw ≡ true) sample.clips (refl, (refl, (refl, tt)));
}
