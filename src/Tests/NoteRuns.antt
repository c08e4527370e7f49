-- ===== src/Tests/NoteRuns.antt =====
-- Sequences and patterns, on concrete notes.
use onebeat.Prelude.{◌≡◌, refl, true, some, [], ◌∷◌, get_elem?, keep_if}
use onebeat.Prelude.Int.{pos}
use onebeat.Prelude.Sorting.{is_sorted}
use mathlib.Core.List.{Perm}
use onebeat.Notes.{
  Note, note_order_before, sequence_is_sorted, insert, erase, assign_sorted, starting_in,
}
use onebeat.Notes.Order.{note_order}
use onebeat.Prelude.Sorting.Stable.{equivalent}
use onebeat.Notes.Sequence.{insert_lem, assign_sorted_lem}
use onebeat.Notes.Sequence.Search.{starts_within, EraseOutcome, starting_in_lem, erase_lem}
use onebeat.Entities.{Pattern}
use onebeat.Project.Create.{fresh_pattern}
use onebeat.Tests.Data.{note, two_notes, beat, kick}

in_order : sequence_is_sorted two_notes ≡ true
unfolding sequence_is_sorted is_sorted note_order_before
in_order = refl

insert_lem_example :
    let (s', index) = insert two_notes (note 480 62) in
    (sequence_is_sorted s' ≡ true)
    × Perm s'.notes (note 480 62 ∷ two_notes.notes)
    × (get_elem? s'.notes index ≡ some (note 480 62))
insert_lem_example = insert_lem two_notes (note 480 62) in_order

erase_lem_example : EraseOutcome two_notes (note 960 64) (erase two_notes (note 960 64))
erase_lem_example = erase_lem two_notes (note 960 64) in_order

starting_in_lem_example :
    starting_in two_notes (pos 500) (pos 961)
    ≡ keep_if (starts_within (pos 500) (pos 961)) two_notes.notes
starting_in_lem_example = starting_in_lem two_notes (pos 500) (pos 961) in_order

assign_sorted_lem_example :
    (sequence_is_sorted (assign_sorted (note 960 64 ∷ note 0 60 ∷ [])) ≡ true)
    × Perm (assign_sorted (note 960 64 ∷ note 0 60 ∷ [])).notes (note 960 64 ∷ note 0 60 ∷ [])
    × ((n : Note)
        → keep_if (equivalent note_order n) (assign_sorted (note 960 64 ∷ note 0 60 ∷ [])).notes
          ≡ keep_if (equivalent note_order n) (note 960 64 ∷ note 0 60 ∷ []))
assign_sorted_lem_example = assign_sorted_lem (note 960 64 ∷ note 0 60 ∷ [])

abbrev two_bars : Pattern
two_bars = record (fresh_pattern beat "Beat" (pos 100) (pos 0)) {
  sequences = (kick, record { notes = note 3840 60 ∷ [] }) ∷ [];
}
