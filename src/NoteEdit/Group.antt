-- ===== src/NoteEdit/Group.antt =====
-- Moving a group of notes: `moved` of engine/src/model/note_edit.cpp.
use onebeat.Prelude.{◌≡◌, List, [], ◌∷◌}
use onebeat.Prelude.Int.{ℤ, pos, ◌+ℤ◌, ◌≤ℤ◌, min_ℤ, i64_max}
use onebeat.Notes.{Note}

-- The note is on the keyboard, and its start is an `int64_t` that is not negative.
abbrev pub InRange : Note → Type 0
InRange n = (pos 0 ≤ℤ n.start) × (n.start ≤ℤ i64_max) × (pos 0 ≤ℤ n.key) × (n.key ≤ℤ pos 127)

-- The second note is the first one, moved by a time, held below 2 ^ 63, and by an interval.
abbrev pub MovedBy : ℤ → ℤ → Note → Note → Type 0
MovedBy time pitch n m =
    (m.start ≡ min_ℤ i64_max (n.start +ℤ time))
    × (m.key ≡ n.key +ℤ pitch)
    × (m.length ≡ n.length)
    × (m.velocity ≡ n.velocity)

abbrev pub AllMoved : ℤ → ℤ → List Note → List Note → Type 0
AllMoved time pitch [] [] = Unit
AllMoved time pitch [] (m ∷ ms) = ⊥
AllMoved time pitch (n ∷ ns) [] = ⊥
AllMoved time pitch (n ∷ ns) (m ∷ ms) = MovedBy time pitch n m × AllMoved time pitch ns ms

-- The key stays on the keyboard.
abbrev pub OnKeyboard : ℤ → Type 0
OnKeyboard key = (pos 0 ≤ℤ key) × (key ≤ℤ pos 127)
