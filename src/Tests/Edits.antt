-- ===== src/Tests/Edits.antt =====
-- Edits of notes, on concrete values.
use onebeat.Prelude.{◌≡◌, refl, true, ◌||◌, none, [], ◌∷◌, map, keep_if, if◌then◌else◌}
use onebeat.Prelude.Int.{pos, ◌+ℤ◌, ◌-ℤ◌, neg_ℤ, i64_max, leb_ℤ, ltb_ℤ}
use onebeat.NoteEdit.{
  NoteGrid, NoteRange, add_clamped, moved, time_delta, earliest_start, select_notes_in_range,
  inspect_step_at,
}
use onebeat.NoteEdit.Steps.{on_onset, off_onset, inspect_step_at_lem}
use onebeat.NoteEdit.Select.{sounds_in, select_notes_in_range_lem}
use onebeat.Notes.{Note, sequence_is_sorted, note_order_before}
use onebeat.Prelude.Sorting.{is_sorted}
use onebeat.Tests.Data.{two_notes}

in_order : sequence_is_sorted two_notes ≡ true
unfolding sequence_is_sorted is_sorted note_order_before
in_order = refl

abbrev sixteenths : NoteGrid
sixteenths = record { origin = pos 0; spacing = pos 240 }

-- A move as far as there is puts the two notes at one start.
onsets_collapse :
    map (λ (n : Note). n.start) (moved two_notes.notes i64_max (pos 0) none)
    ≡ i64_max ∷ i64_max ∷ []
unfolding moved time_delta earliest_start add_clamped neg_ℤ ◌+ℤ◌ ◌-ℤ◌
onsets_collapse = refl

inspect_step_at_lem_example : inspect_step_at two_notes (pos 64) (pos 960) sixteenths ≡ record {
  on_grid = keep_if (on_onset (pos 64) (pos 960) (add_clamped (pos 960) (pos 240))) two_notes.notes;
  off_grid =
      keep_if (off_onset (pos 64) (pos 960) (add_clamped (pos 960) (pos 240))) two_notes.notes;
}
inspect_step_at_lem_example = inspect_step_at_lem two_notes (pos 64) (pos 960) sixteenths in_order

abbrev viewed : NoteRange
viewed = record { start = pos 100; end = pos 900; low_key = pos 0; high_key = pos 127 }

select_notes_in_range_lem_example : select_notes_in_range two_notes viewed ≡ (
    if leb_ℤ viewed.end viewed.start || ltb_ℤ viewed.high_key viewed.low_key
    then []
    else keep_if (sounds_in viewed) two_notes.notes)
select_notes_in_range_lem_example = select_notes_in_range_lem two_notes viewed in_order
