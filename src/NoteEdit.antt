-- ===== src/NoteEdit.antt =====
-- Editing of notes: engine/src/model/note_edit.h and note_edit.cpp. An edit that the source turns into
-- a command for the bus is here the notes that the command replaces and those it puts in their place.
pub mod Clamped
pub mod Group
pub mod Steps
pub mod Select
use onebeat.Prelude.{
  ℕ, suc, ◌/◌, ◌%◌, ◌≡◌, Bool, true, false, not, ◌&&◌, ◌||◌, Option, none, some, List, [], ◌∷◌,
  ◌++◌, map, if◌then◌else◌, leb, ltb,
}
use onebeat.Prelude.Int.{
  ℤ, pos, negsuc, pos_part, ◌*ℤ◌, ◌+ℤ◌, ◌-ℤ◌, neg_ℤ, ltb_ℤ, leb_ℤ, eq_ℤ, max_ℤ, min_ℤ, i64_max,
  i64_min,
}
use onebeat.Notes.{Ticks, Velocity, Note, NoteSequence, starting_in, max_velocity}

pub record NoteGrid : Type 0 where
  pub origin : Ticks
  pub spacing : Ticks

abbrev pub grid_valid : NoteGrid → Bool
grid_valid g = ltb_ℤ (pos 0) g.spacing

-- The sum and the difference, held within `int64_t`.
unfoldable pub add_clamped : Ticks → Ticks → Ticks
add_clamped value delta =
    if ltb_ℤ (pos 0) delta && ltb_ℤ (i64_max -ℤ delta) value
    then i64_max
    else if ltb_ℤ delta (pos 0) && ltb_ℤ value (i64_min -ℤ delta)
    then i64_min
    else value +ℤ delta

pub subtract_clamped : Ticks → Ticks → Ticks
subtract_clamped value subtrahend =
    if ltb_ℤ (pos 0) subtrahend && ltb_ℤ value (i64_min +ℤ subtrahend)
    then i64_min
    else if ltb_ℤ subtrahend (pos 0) && ltb_ℤ (i64_max +ℤ subtrahend) value
    then i64_max
    else value -ℤ subtrahend

abbrev pub note_end : Note → Ticks
note_end n = add_clamped n.start n.length

-- The loop that finds the lowest and the highest key.
pub lowest_key : ℤ → List Note → ℤ
lowest_key lowest [] = lowest
lowest_key lowest (n ∷ ns) = lowest_key (min_ℤ lowest n.key) ns

pub highest_key : ℤ → List Note → ℤ
highest_key highest [] = highest
highest_key highest (n ∷ ns) = highest_key (max_ℤ highest n.key) ns

-- `std::clamp`, whose bounds are in order
abbrev pub clamp : ℤ → ℤ → ℤ → ℤ
clamp v low high = if ltb_ℤ v low then low else if ltb_ℤ high v then high else v

pub bounded_transpose : List Note → ℤ → ℤ
bounded_transpose [] requested = pos 0
bounded_transpose (n ∷ ns) requested =
    let lower = neg_ℤ (lowest_key (pos 127) (n ∷ ns)) in
    let upper = pos 127 -ℤ highest_key (pos 0) (n ∷ ns) in clamp requested lower upper

unfoldable pub earliest_start : Ticks → List Note → Ticks
earliest_start earliest [] = earliest
earliest_start earliest (n ∷ ns) = earliest_start (min_ℤ earliest n.start) ns

abbrev pub shift_note : Ticks → ℤ → Note → Note
shift_note time pitch n = record n { start = add_clamped n.start time; key = n.key +ℤ pitch }

-- Division by a positive spacing, which drops the fraction, and what it leaves, which has the sign of
-- the dividend.
abbrev pub quotient : ℤ → ℕ → ℤ
quotient (pos a) b = pos (a / b)
quotient (negsuc a) b = neg_ℤ (pos (suc a / b))

abbrev pub remainder : ℤ → ℕ → ℤ
remainder (pos a) b = pos (a % b)
remainder (negsuc a) b = neg_ℤ (pos (suc a % b))

-- The offset from the origin of the grid that a position snaps to; an exact half goes forward.
pub snap_offset : Ticks → Ticks → Ticks
snap_offset relative spacing =
    let left = remainder relative (pos_part spacing) in
    let below = quotient relative (pos_part spacing) *ℤ spacing in
    if leb_ℤ (pos 0) left
    then (if leb_ℤ (spacing -ℤ left) left then add_clamped below spacing else below)
    else if ltb_ℤ (spacing -ℤ neg_ℤ left) (neg_ℤ left)
    then add_clamped below (neg_ℤ spacing)
    else below

pub snap_tick : Ticks → NoteGrid → Ticks
snap_tick tick grid =
    if grid_valid grid
    then add_clamped grid.origin (snap_offset (subtract_clamped tick grid.origin) grid.spacing)
    else tick

-- How far a group moves in time before it is held at 0: the anchor is its earliest note.
unfoldable pub time_delta : Ticks → Ticks → Option NoteGrid → Ticks
time_delta anchor delta none = delta
time_delta anchor delta (some grid) =
    if grid_valid grid
    then subtract_clamped (snap_tick (add_clamped anchor delta) grid) anchor
    else delta

unfoldable pub moved : List Note → Ticks → ℤ → Option NoteGrid → List Note
moved [] delta semitones grid = []
moved (n ∷ ns) delta semitones grid =
    let earliest = earliest_start n.start (n ∷ ns) in
    let time = max_ℤ (time_delta earliest delta grid) (neg_ℤ earliest) in
    let pitch = bounded_transpose (n ∷ ns) semitones in map (shift_note time pitch) (n ∷ ns)

abbrev invalid_grid : Option NoteGrid → Bool
invalid_grid none = false
invalid_grid (some grid) = not (grid_valid grid)

-- `moveNotes`: the notes before and after, for `replaceNotes`
pub move_notes : List Note → Ticks → ℤ → Option NoteGrid → Option (List Note × List Note)
move_notes [] delta semitones grid = none
move_notes (n ∷ ns) delta semitones grid =
    if invalid_grid grid then none else some (n ∷ ns, moved (n ∷ ns) delta semitones grid)

abbrev pub resized : Ticks → Option NoteGrid → Note → Note
resized length_delta grid n =
    let free = add_clamped (note_end n) length_delta in
    let end : Ticks = elim grid [ none ↦ free | some g ↦ snap_tick free g ] in
    record n { length = if leb_ℤ end n.start then pos 1 else end -ℤ n.start }

pub resize_notes : List Note → Ticks → Option NoteGrid → Option (List Note × List Note)
resize_notes [] length_delta grid = none
resize_notes (n ∷ ns) length_delta grid =
    if invalid_grid grid then none else some (n ∷ ns, map (resized length_delta grid) (n ∷ ns))

pub record NoteRange : Type 0 where
  pub start : Ticks
  pub end : Ticks
  pub low_key : ℤ
  pub high_key : ℤ

-- The loop of `selectNotesInRange`, which stops at the first note that begins after the range.
pub select_from : NoteRange → List Note → List Note
select_from range [] = []
select_from range (n ∷ ns) =
    let rest = select_from range ns in
    if leb_ℤ range.end n.start
    then []
    else if leb_ℤ (note_end n) range.start
    then rest
    else if ltb_ℤ n.key range.low_key || ltb_ℤ range.high_key n.key
    then rest
    else n ∷ rest

pub select_notes_in_range : NoteSequence → NoteRange → List Note
select_notes_in_range s range =
    if leb_ℤ range.end range.start || ltb_ℤ range.high_key range.low_key
    then []
    else select_from range s.notes

abbrev pub with_velocity : Velocity → Note → Note
with_velocity velocity n = record n { velocity = velocity }

pub set_note_velocity : List Note → Velocity → Option (List Note × List Note)
set_note_velocity [] velocity = none
set_note_velocity (n ∷ ns) velocity =
    if ltb max_velocity velocity then none else some (n ∷ ns, map (with_velocity velocity) (n ∷ ns))

pub record StepCell : Type 0 where
  pub on_grid : List Note
  pub off_grid : List Note

-- The loop over the notes that start in the cell.
pub sort_cell : ℤ → Ticks → List Note → StepCell
sort_cell key start [] = record { on_grid = []; off_grid = [] }
sort_cell key start (n ∷ ns) =
    let rest = sort_cell key start ns in
    if not (eq_ℤ n.key key)
    then rest
    else if eq_ℤ n.start start
    then record rest { on_grid = n ∷ rest.on_grid }
    else record rest { off_grid = n ∷ rest.off_grid }

-- The onset of a step, where it exists and `int64_t` holds it.
pub step_onset : ℤ → NoteGrid → Option Ticks
step_onset index grid =
    let offset = index *ℤ grid.spacing in
    if not (grid_valid grid) || ltb_ℤ index (pos 0)
    then none
    else if ltb_ℤ (quotient i64_max (pos_part grid.spacing)) index
    then none
    else if ltb_ℤ (pos 0) grid.origin && ltb_ℤ (i64_max -ℤ grid.origin) offset
    then none
    else if ltb_ℤ (grid.origin +ℤ offset) (pos 0)
    then none
    else some (grid.origin +ℤ offset)

-- `inspectStep` at an onset that `stepOnset` has found
pub inspect_step_at : NoteSequence → ℤ → Ticks → NoteGrid → StepCell
inspect_step_at s key start grid =
    sort_cell key start (starting_in s start (add_clamped start grid.spacing))

abbrev empty_cell : StepCell
empty_cell = record { on_grid = []; off_grid = [] }

pub inspect_step : NoteSequence → ℤ → ℤ → NoteGrid → StepCell
inspect_step s key index grid = elim (step_onset index grid) [
  | none ↦ empty_cell
  | some start ↦
      if ltb_ℤ key (pos 0) || ltb_ℤ (pos 127) key
      then empty_cell
      else inspect_step_at s key start grid
]
