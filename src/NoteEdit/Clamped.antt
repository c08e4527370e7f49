-- ===== src/NoteEdit/Clamped.antt =====
-- `addClamped` and `subtractClamped` of engine/src/model/note_edit.cpp.
use onebeat.Prelude.{◌≡◌, arith}
use onebeat.Prelude.Int.{ℤ, ◌+ℤ◌, ◌-ℤ◌, max_ℤ, min_ℤ, i64_max, i64_min, InI64, +ℤ_parts, -ℤ_parts}
use onebeat.NoteEdit.{add_clamped, subtract_clamped}

-- For two `int64_t`, the guards, which compute no sum that overflows, give the exact sum held between the
-- smallest and the largest `int64_t`; so the result is one.
pub add_clamped_lem :
    (value delta : ℤ)
    → InI64 value
    → InI64 delta
    → (add_clamped value delta ≡ max_ℤ i64_min (min_ℤ i64_max (value +ℤ delta)))
      × InI64 (add_clamped value delta)
unfolding add_clamped
add_clamped_lem value delta v d = (
  ground (arith, +ℤ_parts value delta, -ℤ_parts i64_max delta, -ℤ_parts i64_min delta),
  ground (arith, +ℤ_parts value delta, -ℤ_parts i64_max delta, -ℤ_parts i64_min delta),
)

-- The guards of the difference, too, give the exact difference of two `int64_t` held between the smallest
-- and the largest one.
pub subtract_clamped_lem :
    (value subtrahend : ℤ)
    → InI64 value
    → InI64 subtrahend
    → (subtract_clamped value subtrahend ≡ max_ℤ i64_min (min_ℤ i64_max (value -ℤ subtrahend)))
      × InI64 (subtract_clamped value subtrahend)
unfolding subtract_clamped
subtract_clamped_lem value subtrahend v d = (
  ground
      (arith, -ℤ_parts value subtrahend, +ℤ_parts i64_max subtrahend, +ℤ_parts i64_min subtrahend),
  ground
      (arith, -ℤ_parts value subtrahend, +ℤ_parts i64_max subtrahend, +ℤ_parts i64_min subtrahend),
)
