-- ===== src/Notes.antt =====
-- The one note representation: engine/src/model/note_sequence.h.
pub mod Order
pub mod Sequence
use onebeat.Prelude.{
  ℕ, suc, ◌+◌, ◌*◌, ◌≤◌, ◌≡◌, Bool, true, false, not, ◌&&◌, Option, none, some, List, [], ◌∷◌, ◌++◌,
  ltb, leb, ◌==◌, if◌then◌else◌, insert_at, erase_at, take, drop, keep_if,
}
use onebeat.Prelude.Int.{ℤ, pos, negsuc, ◌+ℤ◌, ◌-ℤ◌, leb_ℤ, ltb_ℤ, eq_ℤ, max_ℤ, i64_max}
use onebeat.Prelude.Sorting.{is_sorted, upper_bound, partition_point, stable_sort}

-- Musical time, an `int64_t`.
abbrev pub Ticks : Type 0
Ticks = ℤ

abbrev pub ticks_per_quarter : Ticks
ticks_per_quarter = pos 960

abbrev pub ticks_per_bar_four_four : Ticks
ticks_per_bar_four_four = pos 3840

-- 14 bits.
abbrev pub Velocity : Type 0
Velocity = ℕ

abbrev pub max_velocity : Velocity
max_velocity = 16383

abbrev pub default_velocity : Velocity
default_velocity = 100 * 129

-- `velocityFromMidi1` of a `uint8_t`: `midi * 129` fits 16 bits.
pub velocity_from_midi1 : ℕ → Velocity
velocity_from_midi1 midi = midi * 129

pub record Note : Type 0 where
  pub start : Ticks
  pub length : Ticks
  pub key : ℤ
  pub velocity : Velocity

-- `operator==` of a note, field by field.
pub note_eq : Note → Note → Bool
note_eq a b =
    eq_ℤ a.start b.start
    && (eq_ℤ a.length b.length && (eq_ℤ a.key b.key && a.velocity == b.velocity))

pub is_valid_note : Note → Bool
is_valid_note n =
    leb_ℤ (pos 0) n.start
    && (ltb_ℤ (pos 0) n.length
        && (leb_ℤ (pos 0) n.key
            && (leb_ℤ n.key (pos 127)
                && (leb n.velocity max_velocity && leb_ℤ n.length (i64_max -ℤ n.start)))))

-- The canonical order: start, then key, then length.
unfoldable pub note_order_before : Note → Note → Bool
note_order_before a b =
    if not (eq_ℤ a.start b.start)
    then ltb_ℤ a.start b.start
    else if not (eq_ℤ a.key b.key)
    then ltb_ℤ a.key b.key
    else ltb_ℤ a.length b.length

pub record NoteSequence : Type 0 where
  pub notes : List Note

unfoldable pub empty : NoteSequence → Bool
empty s = elim s.notes [ [] ↦ true | _ ∷ _ ↦ false ]

-- The new sequence, and the index that the note landed at.
pub insert : NoteSequence → Note → NoteSequence × ℕ
unfolding upper_bound note_order_before
insert s note =
    let index = upper_bound note_order_before note s.notes in
    (record { notes = insert_at index note s.notes }, index)

pub erase_at_index : NoteSequence → ℕ → NoteSequence
erase_at_index s index = record { notes = erase_at index s.notes }

-- The loop of `erase` from its position: `none` if it ends without a note that is equal.
erase_scan : Note → List Note → Option (List Note)
erase_scan note [] = none
erase_scan note (n ∷ ns) =
    let rest = erase_scan note ns in
    if note_order_before note n
    then none
    else if note_eq n note
    then some ns
    else elim rest [ none ↦ none | some r ↦ some (n ∷ r) ]

unfoldable pub erase : NoteSequence → Note → NoteSequence × Bool
unfolding erase_scan partition_point note_order_before note_eq
erase s note =
    let position = partition_point (λ n. note_order_before n note) s.notes in
    elim (erase_scan note (drop position s.notes)) [
      | none ↦ (s, false)
      | some rest ↦ (record { notes = take position s.notes ++ rest }, true)
    ]

unfoldable pub clear : NoteSequence → NoteSequence
clear s = record { notes = [] }

pub assign_sorted : List Note → NoteSequence
unfolding is_sorted stable_sort note_order_before
assign_sorted notes =
    if is_sorted note_order_before notes
    then record { notes = notes }
    else record { notes = stable_sort note_order_before notes }

unfoldable pub sequence_is_sorted : NoteSequence → Bool
sequence_is_sorted s = is_sorted note_order_before s.notes

-- The borrowed view `{first, last}`, as the notes in it.
pub starting_in : NoteSequence → Ticks → Ticks → List Note
unfolding partition_point
starting_in s start end =
    if leb_ℤ end start
    then []
    else let first = partition_point (λ (n : Note). ltb_ℤ n.start start) s.notes in
      let rest = drop first s.notes in
      take (partition_point (λ (n : Note). ltb_ℤ n.start end) rest) rest

-- The loop of `contentEnd`, with `end` so far.
content_end_from : Ticks → List Note → Ticks
content_end_from end [] = end
content_end_from end (n ∷ ns) = content_end_from (max_ℤ end (n.start +ℤ n.length)) ns

pub content_end : NoteSequence → Ticks
unfolding content_end_from
content_end s = content_end_from (pos 0) s.notes
