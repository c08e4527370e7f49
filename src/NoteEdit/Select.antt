-- ===== src/NoteEdit/Select.antt =====
-- Selecting the notes that sound in a range.
use onebeat.Prelude.{
  ◌≡◌, refl, inl, inr, Bool, true, false, ◌&&◌, ◌||◌, arith, List, [], ◌∷◌, All, keep_if,
  if◌then◌else◌, Bool-cases,
}
use onebeat.Prelude.Int.{◌≤ℤ◌, leb_ℤ, ltb_ℤ}
use onebeat.Prelude.Sorting.{is_sorted, is_sorted-tail, head_first}
use onebeat.Prelude.Sorting.Stable.{keep_if_none}
use onebeat.Notes.{Note, NoteSequence, note_order_before, sequence_is_sorted}
use onebeat.Notes.Order.{note_order}
use onebeat.Notes.Sequence.Search.{not_earlier}
use onebeat.NoteEdit.{NoteRange, note_end, select_from, select_notes_in_range}

-- The note begins before the end of the range, ends after its start, and has a key of it.
abbrev pub sounds_in : NoteRange → Note → Bool
sounds_in range n =
    ltb_ℤ n.start range.end
    && (ltb_ℤ range.start (note_end n) && (leb_ℤ range.low_key n.key && leb_ℤ n.key range.high_key))

silent_after :
    (range : NoteRange) (n : Note) (ns : List Note)
    → range.end ≤ℤ n.start
    → All (λ m. note_order_before m n ≡ false) ns
    → All (λ m. sounds_in range m ≡ false) ns
silent_after range n [] h a = tt
silent_after range n (m ∷ ns) h a =
    (ground (arith, not_earlier n m a.0), silent_after range n ns h a.1)

select_from_lem :
    (range : NoteRange) (ns : List Note)
    → is_sorted note_order_before ns ≡ true
    → select_from range ns ≡ keep_if (sounds_in range) ns
unfolding select_from
select_from_lem range [] h = refl
select_from_lem range (n ∷ ns) h = elim (Bool-cases (leb_ℤ range.end n.start)) [
  | inl e ↦ rw (e, keep_if_none (sounds_in range) (n ∷ ns) (begins_late n ns e h)) refl
  | inr e ↦
      rw (e, select_from_lem range ns (is_sorted-tail note_order n ns h))
        (kept n (keep_if (sounds_in range) ns) e)
]
  where
    begins_late :
        (n : Note) (ns : List Note)
        → leb_ℤ range.end n.start ≡ true
        → is_sorted note_order_before (n ∷ ns) ≡ true
        → All (λ m. sounds_in range m ≡ false) (n ∷ ns)
    begins_late n ns e h =
        (ground arith, silent_after range n ns (ground arith) (head_first note_order n ns h))

    kept :
        (n : Note) (rest : List Note)
        → leb_ℤ range.end n.start ≡ false
        → (if leb_ℤ (note_end n) range.start
            then rest
            else if ltb_ℤ n.key range.low_key || ltb_ℤ range.high_key n.key
            then rest
            else n ∷ rest)
          ≡ (if sounds_in range n then n ∷ rest else rest)
    kept n rest e = ground arith

-- In a sequence in canonical order, the selection has exactly the notes that sound in the range, in
-- order: stopping at the first note that begins after it misses none. An empty range selects nothing.
pub select_notes_in_range_lem :
    (s : NoteSequence) (range : NoteRange)
    → sequence_is_sorted s ≡ true
    → select_notes_in_range s range ≡ (
        if leb_ℤ range.end range.start || ltb_ℤ range.high_key range.low_key
        then []
        else keep_if (sounds_in range) s.notes)
unfolding select_notes_in_range sequence_is_sorted
select_notes_in_range_lem s range h = ground (arith, select_from_lem range s.notes h)
