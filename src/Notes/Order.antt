-- ===== src/Notes/Order.antt =====
-- The order of notes and the test of validity, as predicates: engine/src/model/note_sequence.h.
use onebeat.Prelude.{◌≤◌, ◌≡◌, ◌↔◌, ◌⊎◌, inl, inr, true, false, arith}
use onebeat.Prelude.Int.{pos, ◌≤ℤ◌, ◌<ℤ◌, ◌+ℤ◌, eq_of_parts, i64_max, -ℤ_parts, +ℤ_parts}
use onebeat.Prelude.Sorting.{StrictWeak}
use onebeat.Notes.{Note, note_eq, is_valid_note, note_order_before, max_velocity}

note_order_asymm : (a b : Note) → note_order_before a b ≡ true → note_order_before b a ≡ false
unfolding note_order_before
note_order_asymm a b h = ground arith

-- `a` comes first or the two are equivalent, as the orders of the three fields say it
abbrev NotAfter : Note → Note → Type 0
NotAfter a b =
    (a.start <ℤ b.start)
    ⊎ ((a.start ≤ℤ b.start) × ((a.key <ℤ b.key) ⊎ ((a.key ≤ℤ b.key) × (a.length ≤ℤ b.length))))

before→NotAfter : (a b : Note) → note_order_before b a ≡ false → NotAfter a b
unfolding note_order_before
before→NotAfter a b h = ground arith

NotAfter→before : (a b : Note) → NotAfter a b → note_order_before b a ≡ false
unfolding note_order_before
NotAfter→before a b h = ground arith

NotAfter-trans : (a b c : Note) → NotAfter a b → NotAfter b c → NotAfter a c
NotAfter-trans a b c (inl h) (inl k) = inl (omega arith)
NotAfter-trans a b c (inl h) (inr (k, l)) = inl (omega arith)
NotAfter-trans a b c (inr (h, l)) (inl k) = inl (omega arith)
NotAfter-trans a b c (inr (h, inl l)) (inr (k, inl m)) = inr (omega arith, inl (omega arith))
NotAfter-trans a b c (inr (h, inl l)) (inr (k, inr m)) = inr (omega arith, inl (omega arith))
NotAfter-trans a b c (inr (h, inr l)) (inr (k, inl m)) = inr (omega arith, inl (omega arith))
NotAfter-trans a b c (inr (h, inr l)) (inr (k, inr m)) =
    inr (omega arith, inr (omega arith, omega arith))

note_order_le_trans :
    (a b c : Note)
    → note_order_before b a ≡ false
    → note_order_before c b ≡ false
    → note_order_before c a ≡ false
note_order_le_trans a b c h k =
    NotAfter→before a c (NotAfter-trans a b c (before→NotAfter a b h) (before→NotAfter b c k))

pub note_order : StrictWeak note_order_before
note_order = record { asymm = note_order_asymm; le_trans = note_order_le_trans }

pub note_eq_iff : (a b : Note) → (note_eq a b ≡ true) ↔ (a ≡ b)
unfolding note_eq
note_eq_iff a b =
    ground
      (arith, eq_of_parts a.start b.start, eq_of_parts a.length b.length, eq_of_parts a.key b.key)

pub record IsValidNote (n : Note) : Type 0 where
  pub starts : pos 0 ≤ℤ n.start
  pub lasts : pos 0 <ℤ n.length
  pub key_low : pos 0 ≤ℤ n.key
  pub key_high : n.key ≤ℤ pos 127
  pub loud : n.velocity ≤ max_velocity
  pub ends : n.start +ℤ n.length ≤ℤ i64_max

-- The code's test, which never adds start and length, accepts exactly the notes whose start is not
-- negative, whose length is positive, whose key and velocity are in their ranges, and whose end
-- does not pass the largest `int64_t`.
pub is_valid_note_iff : (n : Note) → (is_valid_note n ≡ true) ↔ IsValidNote n
unfolding is_valid_note
is_valid_note_iff n = (
  (λ h. record {
    starts = ground arith;
    lasts = ground arith;
    key_low = ground arith;
    key_high = ground arith;
    loud = ground arith;
    ends = ground (arith, -ℤ_parts i64_max n.start, +ℤ_parts n.start n.length);
  }),
  (λ v. ground (arith, v.starts, -ℤ_parts i64_max n.start, +ℤ_parts n.start n.length)),
)
