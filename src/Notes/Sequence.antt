-- ===== src/Notes/Sequence.antt =====
-- What each operation of `NoteSequence` does to a sequence in canonical order.
pub mod Search
use mathlib.Core.List.{Perm}
use mathlib.Core.List.Perm
use onebeat.Prelude.{
  ℕ, ◌+◌, ◌≤◌, ◌≡◌, refl, ◌⊎◌, inl, inr, ◌∙◌, true, false, Bool, Bool-cases, Option, some, List, [],
  ◌∷◌, arith, if◌then◌else◌, get_elem?, keep_if, All,
}
use onebeat.Prelude.Int.{ℤ, pos, ◌≤ℤ◌, ◌<ℤ◌, ◌+ℤ◌, max_ℤ}
use onebeat.Prelude.Sorting.{
  is_sorted, upper_bound, stable_sort, insert_after, insert_at-upper_bound, insert_after-perm,
  insert_after-is_sorted, stable_sort-perm, stable_sort-is_sorted,
}
use onebeat.Prelude.Sorting.Stable.{equivalent, keep_if-stable_sort}
use onebeat.Notes.{
  Note, NoteSequence, Ticks, note_order_before, insert, assign_sorted, sequence_is_sorted,
  content_end, content_end_from,
}
use onebeat.Notes.Order.{note_order}

get_elem?-insert :
    (note : Note) (ns : List Note)
    → get_elem? (insert_after note_order_before note ns) (upper_bound note_order_before note ns)
      ≡ some note
unfolding upper_bound
get_elem?-insert note [] = refl
get_elem?-insert note (n ∷ ns) = ground (arith, get_elem?-insert note ns)

-- Inserting into a sequence in canonical order keeps it in order, adds exactly that note, and
-- returns the index at which it stands.
pub insert_lem :
    (s : NoteSequence) (note : Note)
    → sequence_is_sorted s ≡ true
    → let (s', index) = insert s note in
      (sequence_is_sorted s' ≡ true)
      × Perm s'.notes (note ∷ s.notes)
      × (get_elem? s'.notes index ≡ some note)
unfolding insert sequence_is_sorted
insert_lem s note h = rw (insert_at-upper_bound note_order_before note s.notes) (
  insert_after-is_sorted note_order note s.notes h,
  insert_after-perm note_order_before note s.notes,
  get_elem?-insert note s.notes,
)

-- Whatever a file holds, the adopted sequence is in canonical order, has the same notes, and keeps
-- notes of the same start, key and length in the order of the file.
pub assign_sorted_lem :
    (notes : List Note)
    → (sequence_is_sorted (assign_sorted notes) ≡ true)
      × Perm (assign_sorted notes).notes notes
      × ((n : Note)
          → keep_if (equivalent note_order n) (assign_sorted notes).notes
            ≡ keep_if (equivalent note_order n) notes)
unfolding assign_sorted sequence_is_sorted
assign_sorted_lem notes = elim (Bool-cases (is_sorted note_order_before notes)) [
  | inl e ↦ rw (e, assign_sorted, sequence_is_sorted) (e, Perm.refl notes, λ n. refl)
  | inr e ↦
      rw (e, assign_sorted, sequence_is_sorted)
        (
          stable_sort-is_sorted note_order notes,
          stable_sort-perm note_order_before notes,
          λ n. keep_if-stable_sort note_order n notes,
        )
]

abbrev note_end : Note → Ticks
note_end n = n.start +ℤ n.length

-- `end` is among the ends of the notes
abbrev pub EndsAt : Ticks → List Note → Type 0
EndsAt end [] = ⊥
EndsAt end (n ∷ ns) = (end ≡ note_end n) ⊎ EndsAt end ns

content_end_from-bounds :
    (end : Ticks) (ns : List Note)
    → (end ≤ℤ content_end_from end ns) × All (λ n. note_end n ≤ℤ content_end_from end ns) ns
unfolding content_end_from
content_end_from-bounds end [] = (omega arith, tt)
content_end_from-bounds end (n ∷ ns) =
    let later = content_end_from-bounds (max_ℤ end (note_end n)) ns in
    (ground (arith, later.0), (ground (arith, later.0), later.1))

content_end_from-attained :
    (end : Ticks) (ns : List Note)
    → (content_end_from end ns ≡ end) ⊎ EndsAt (content_end_from end ns) ns
unfolding content_end_from
content_end_from-attained end [] = inl refl
content_end_from-attained end (n ∷ ns) =
    ground (arith, content_end_from-attained (max_ℤ end (note_end n)) ns)

-- The content of a sequence ends at the end of its last-ending note: no note ends later, and the
-- result is the end of some note, or 0.
pub content_end_lem :
    (s : NoteSequence)
    → (pos 0 ≤ℤ content_end s)
      × All (λ n. n.start +ℤ n.length ≤ℤ content_end s) s.notes
      × ((content_end s ≡ pos 0) ⊎ EndsAt (content_end s) s.notes)
unfolding content_end
content_end_lem s =
    let bounds = content_end_from-bounds (pos 0) s.notes in
    (bounds.0, bounds.1, content_end_from-attained (pos 0) s.notes)
