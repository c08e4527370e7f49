-- ===== src/Tests/Creations.antt =====
-- Creation, editing and the undoing of removals, on the sample project.
use onebeat.Prelude.{◌≡◌, refl, inl, Bool, true, false, arith, Option, none, some, [], ◌∷◌}
use onebeat.Prelude.Int.{pos}
use onebeat.Prelude.Map.{find}
use onebeat.Prelude.Map.Keys.{found}
use onebeat.Ids.{EntityKind, raw_eq, raw_valid, next_raw, next_id}
use onebeat.Ids.Order.{id_key}
use onebeat.Notes.{NoteSequence, clear, sequence_is_sorted}
use onebeat.Entities.{Pattern, ArrangementLane}
use onebeat.Project.{Project, Preferences}
use onebeat.Project.Create.{create_lane, create_pattern, create_mixer_track}
use onebeat.Project.Integrity.{Integrity}
use onebeat.Project.Integrity.EditSequence.{NotesOk}
use onebeat.Project.{new_project}
use onebeat.Command.Commands.Clips.{silent}
use onebeat.Command.Commands.Removal.{
  RemovePattern, apply_remove_pattern, revert_remove_pattern, RemoveLane, apply_remove_lane,
  revert_remove_lane,
}
use onebeat.Command.Commands.Removal.Patterns.{PatternsFiled, revert_remove_pattern-apply}
use onebeat.Command.Commands.Removal.Lanes.{LanesFiled, revert_remove_lane-apply}
use onebeat.Tests.Data.{sample, strings, beat, lane, beat_pattern, only_lane}
use onebeat.Tests.Sound.{sample-Integrity, sample-ClipsFiled}

lane_fresh : find (create_lane sample "Drums").1 sample.lanes ≡ none
unfolding find raw_eq create_lane next_raw onebeat.Ids.count_up onebeat.Ids.redraw
    onebeat.Ids.next_random onebeat.Ids.now_milliseconds
lane_fresh = refl

pattern_fresh : find (create_pattern sample "Fill" (pos 3840)).1 sample.patterns ≡ none
unfolding find raw_eq create_pattern next_raw onebeat.Ids.count_up onebeat.Ids.redraw
    onebeat.Ids.next_random onebeat.Ids.now_milliseconds
pattern_fresh = refl

clip_fresh : find (next_id {K = EntityKind.clip} sample.generator).0 sample.clips ≡ none
unfolding find raw_eq next_raw onebeat.Ids.count_up onebeat.Ids.redraw onebeat.Ids.next_random
    onebeat.Ids.now_milliseconds
clip_fresh = refl

track_fresh : find (create_mixer_track sample "Bus" (some strings)).1 sample.mixer_tracks ≡ none
unfolding find raw_eq create_mixer_track next_raw onebeat.Ids.count_up onebeat.Ids.redraw
    onebeat.Ids.next_random onebeat.Ids.now_milliseconds
track_fresh = refl

abbrev minted : Project
minted = record sample { generator = (next_id {K = EntityKind.instrument} sample.generator).1 }

instrument_fresh :
    find (next_id {K = EntityKind.instrument} sample.generator).0 sample.instruments ≡ none
unfolding find raw_eq next_raw onebeat.Ids.count_up onebeat.Ids.redraw onebeat.Ids.next_random
    onebeat.Ids.now_milliseconds
instrument_fresh = refl

own_track_fresh :
    find (create_mixer_track minted "Snare" (some minted.master)).1 sample.mixer_tracks ≡ none
unfolding find raw_eq create_mixer_track next_raw onebeat.Ids.count_up onebeat.Ids.redraw
    onebeat.Ids.next_random onebeat.Ids.now_milliseconds
own_track_fresh = refl

clear-NotesOk : (s : NoteSequence) → NotesOk s → NotesOk (clear s)
unfolding clear sequence_is_sorted onebeat.Prelude.Sorting.is_sorted
clear-NotesOk s h = (refl, tt)

sample-PatternsFiled : PatternsFiled sample
unfolding find raw_eq raw_valid
sample-PatternsFiled = record {
  ordered = sample-Integrity.ordered.patterns;
  filed = found (λ k (r : Pattern). r.id ≡ k) sample.patterns (refl, tt);
  valid = found (λ k (_ : Pattern). raw_valid k.raw ≡ true) sample.patterns (refl, tt);
}

sample-LanesFiled : LanesFiled sample
unfolding find raw_eq raw_valid
sample-LanesFiled = record {
  ordered = sample-Integrity.ordered.lanes;
  filed = found (λ k (l : ArrangementLane). l.id ≡ k) sample.lanes (refl, tt);
  valid = found (λ k (_ : ArrangementLane). raw_valid k.raw ≡ true) sample.lanes (refl, tt);
}

abbrev of_beat : RemovePattern
of_beat = record { id = beat; pattern = beat_pattern; clips = [] }

revert_remove_pattern-apply_example :
    let (captured, q, ok) = apply_remove_pattern of_beat sample in
    (ok ≡ true)
    × ((revert_remove_pattern captured q).2 ≡ true)
    × (silent (revert_remove_pattern captured q).1 ≡ silent sample)
unfolding find raw_eq
revert_remove_pattern-apply_example =
    revert_remove_pattern-apply of_beat sample sample-PatternsFiled sample-ClipsFiled refl

abbrev of_lane : RemoveLane
of_lane = record { id = lane; lane = only_lane; clips = []; grouped = [] }

revert_remove_lane-apply_example :
    let (captured, q, ok) = apply_remove_lane of_lane sample in
    (ok ≡ true)
    × ((revert_remove_lane captured q).2 ≡ true)
    × (silent (revert_remove_lane captured q).1 ≡ silent sample)
unfolding find raw_eq
revert_remove_lane-apply_example =
    revert_remove_lane-apply of_lane sample sample-LanesFiled sample-ClipsFiled refl

abbrev started_project : Project
started_project = new_project sample.generator

-- a lane made and muted, a clip that is not there deleted, an id minted, the settings set, and another lane deleted
abbrev with_lane : Project
with_lane = (create_lane started_project "Drums").0

abbrev mute : ArrangementLane → ArrangementLane
mute l = record l { muted = true }

abbrev own : Preferences
own = record { auto_create_mixer_track = false }
