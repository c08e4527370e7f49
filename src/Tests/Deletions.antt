-- ===== src/Tests/Deletions.antt =====
-- The deletions, on the sample project.
use onebeat.Prelude.{◌≡◌, ◌≢◌, refl, ◌∙◌, true, arith, none, some, [], ◌∷◌}
use onebeat.Prelude.Map.{find}
use onebeat.Ids.{raw_eq}
use onebeat.Ids.Order.{id_key}
use onebeat.Project.{Project}
use onebeat.Project.Delete.{delete_pattern, delete_lane, delete_instrument, delete_mixer_track}
use onebeat.Project.Integrity.{Integrity}
use onebeat.Project.Integrity.DeletePattern.{PatternDeleted, delete_pattern_lem}
use onebeat.Project.Integrity.DeleteLane.{LaneDeleted, delete_lane_lem}
use onebeat.Project.Integrity.DeleteInstrument.{
  InstrumentDeleted, delete_instrument_lem, delete_instrument-Integrity,
}
use onebeat.Project.Integrity.DeleteMixerTrack.Effect.{TrackDeleted, delete_mixer_track_lem}
use onebeat.Project.Integrity.DeleteMixerTrack.Kept.{delete_mixer_track-Integrity}
use onebeat.Tests.Data.{sample, master, strings, kick, beat, lane, beat_pattern, curve}
use onebeat.Tests.Sound.{sample-Integrity}

-- The sample with a curve on the instrument in its pattern: the instrument goes, and the curve stays.
abbrev automated : Project
automated = record sample {
  patterns = (beat, record beat_pattern { automation = curve ∷ [] }) ∷ [];
}

curve_left :
    (find kick (delete_instrument automated kick).0.instruments ≡ none)
    × (find beat (delete_instrument automated kick).0.patterns
        ≡ some (record beat_pattern { sequences = []; automation = curve ∷ [] }))
unfolding find raw_eq onebeat.Prelude.Map.erase
curve_left =
    let d =
      (delete_instrument_lem automated kick sample-Integrity.ordered.instruments (tt, tt)
        sample-Integrity.ordered.clips refl).1 in
    (d.instruments kick, d.patterns beat ∙ refl)

delete_pattern_lem_example :
    ((delete_pattern sample beat).1 ≡ true)
    × PatternDeleted sample beat (delete_pattern sample beat).0
unfolding find raw_eq
delete_pattern_lem_example =
    delete_pattern_lem sample beat sample-Integrity.ordered.patterns sample-Integrity.ordered.clips
      refl

delete_lane_lem_example :
    ((delete_lane sample lane).1 ≡ true) × LaneDeleted sample lane (delete_lane sample lane).0
unfolding find raw_eq
delete_lane_lem_example =
    delete_lane_lem sample lane sample-Integrity.ordered.lanes sample-Integrity.ordered.clips refl

delete_instrument-Integrity_example : Integrity (delete_instrument sample kick).0
delete_instrument-Integrity_example = delete_instrument-Integrity sample kick sample-Integrity

delete_instrument_lem_example :
    ((delete_instrument sample kick).1 ≡ true)
    × InstrumentDeleted sample kick (delete_instrument sample kick).0
unfolding find raw_eq
delete_instrument_lem_example =
    delete_instrument_lem sample kick sample-Integrity.ordered.instruments
      sample-Integrity.ordered.patterns sample-Integrity.ordered.clips refl

delete_mixer_track-Integrity_example : Integrity (delete_mixer_track sample strings).0
delete_mixer_track-Integrity_example = delete_mixer_track-Integrity sample strings sample-Integrity

strings_not_master : strings ≢ master
strings_not_master = λ e. ground arith

delete_mixer_track_lem_example :
    ((delete_mixer_track sample strings).1 ≡ true)
    × TrackDeleted sample strings (delete_mixer_track sample strings).0
unfolding find raw_eq
delete_mixer_track_lem_example =
    delete_mixer_track_lem sample strings sample-Integrity.ordered.instruments
      sample-Integrity.ordered.mixer_tracks sample-Integrity.ordered.clips strings_not_master refl
