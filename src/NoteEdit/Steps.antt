-- ===== src/NoteEdit/Steps.antt =====
-- `inspectStep` of engine/src/model/note_edit.cpp.
use onebeat.Prelude.{◌≡◌, refl, ◌∙◌, ap, Bool, true, not, ◌&&◌, arith, List, [], ◌∷◌, keep_if}
use onebeat.Prelude.Int.{ℤ, eq_ℤ}
use onebeat.Notes.{Ticks, Note, NoteSequence, sequence_is_sorted}
use onebeat.Notes.Sequence.Search.{starting_in_lem, starts_within}
use onebeat.NoteEdit.{NoteGrid, add_clamped, sort_cell, inspect_step_at}

-- The note has the key, and starts in the cell at its onset, or after it.
abbrev pub on_onset : ℤ → Ticks → Ticks → Note → Bool
on_onset key start end n = starts_within start end n && (eq_ℤ n.key key && eq_ℤ n.start start)

abbrev pub off_onset : ℤ → Ticks → Ticks → Note → Bool
off_onset key start end n =
    starts_within start end n && (eq_ℤ n.key key && not (eq_ℤ n.start start))

sort_cell_lem :
    (key : ℤ) (start end : Ticks) (ns : List Note)
    → sort_cell key start (keep_if (starts_within start end) ns) ≡ record {
      on_grid = keep_if (on_onset key start end) ns;
      off_grid = keep_if (off_onset key start end) ns;
    }
unfolding sort_cell
sort_cell_lem key start end [] = refl
sort_cell_lem key start end (n ∷ ns) = ground (arith, sort_cell_lem key start end ns)

-- In a sequence in canonical order, the cell that starts at an onset reports exactly the notes of the
-- key that start in it: those at the onset as on the grid, the others as off it, each in order.
pub inspect_step_at_lem :
    (s : NoteSequence) (key : ℤ) (start : Ticks) (grid : NoteGrid)
    → sequence_is_sorted s ≡ true
    → let end = add_clamped start grid.spacing in
      inspect_step_at s key start grid ≡ record {
        on_grid = keep_if (on_onset key start end) s.notes;
        off_grid = keep_if (off_onset key start end) s.notes;
      }
unfolding inspect_step_at
inspect_step_at_lem s key start grid h =
    ap (sort_cell key start) (starting_in_lem s start (add_clamped start grid.spacing) h)
    ∙ sort_cell_lem key start (add_clamped start grid.spacing) s.notes
