-- ===== src/Realtime/Ring/Moves.antt =====
-- Steps of the ring that leave the cells and the counters alone.
use onebeat.Prelude.{
  ℕ, suc, ◌+◌, ◌^◌, ◌≤◌, ◌<◌, ◌≡◌, refl, ap, true, false, ◌⊎◌, inl, inr, ◌==◌, Bool-cases, arith,
}
use onebeat.Realtime.Ring.{slot, Producer, Consumer, System, at, signed_lt}
use onebeat.Realtime.Ring.Slots.{slot-lt, slot-add_capacity}
use onebeat.Realtime.Ring.Invariant.{
  released, Owns, floor, mark, Pushes, Pops, Inv, Keeps, Pushes-Keeps,
}
use native.Mathlib.Decide.{dec_lt}

module _ {capacity : ℕ} {s : System} {n : ℕ} (inv : Inv capacity s n) where
  -- A push moves on, without a claim.
  pub producer-Inv :
      (i : ℕ) (w : Producer)
      → Pushes capacity s w
      → ((p : ℕ) → ¬ Owns w p)
      → Inv capacity (record s { producers = at s.producers i w }) (suc n)
  producer-Inv i w h none_owned = record {
    counted = omega (arith, inv.counted);
    room = inv.room;
    taken = inv.taken;
    above = inv.above;
    small = λ k l. omega (arith, inv.small k l);
    live = inv.live;
    pushes = λ j. elim (Bool-cases (i == j)) [ inl e ↦ rw e h | inr e ↦ rw e (inv.pushes j) ];
    sole = λ a b p x y. sole a b p x y (Bool-cases (i == a)) (Bool-cases (i == b));
    pops = inv.pops;
    delivered = inv.delivered;
  }
    where
      sole :
          (a b p : ℕ)
          → Owns (at s.producers i w a) p
          → Owns (at s.producers i w b) p
          → ((i == a) ≡ true) ⊎ ((i == a) ≡ false)
          → ((i == b) ≡ true) ⊎ ((i == b) ≡ false)
          → a ≡ b
      sole a b p x y (inl e) f = absurd (none_owned p (rw e at x))
      sole a b p x y (inr e) (inl f) = absurd (none_owned p (rw f at y))
      sole a b p x y (inr e) (inr f) = inv.sole a b p (rw e at x) (rw f at y)

  -- The pop moves on, without a take.
  pub consumer-Inv :
      (c : Consumer)
      → released c s.dequeue_pos ≡ floor capacity s
      → Pops capacity s c
      → Inv capacity (record s { consumer = c }) (suc n)
  consumer-Inv c e h = record {
    counted = omega (arith, inv.counted);
    room = omega (arith, e, inv.room);
    taken = inv.taken;
    above = λ p l. inv.above p (omega (arith, e));
    small = λ k l. omega (arith, inv.small k l);
    live = λ p a b. inv.live p (omega (arith, e)) (omega (arith, e));
    pushes = λ i.
        Pushes-Keeps (omega (arith, e)) (omega arith) (s.producers i) (λ p o. unchanged p)
          (inv.pushes i);
    sole = inv.sole;
    pops = h;
    delivered = rw e (inv.delivered);
  }
    where
      unchanged : (p : ℕ) → Keeps capacity s (record s { consumer = c }) p
      unchanged p = record {
        claimed = λ k. (omega (arith, e), k.1, k.2);
        same_sent = refl;
        same_content = refl;
      }

  module _ (two : 2 ≤ capacity) (bound : n + capacity + 2 < 2 ^ 63) where
    -- the cell of a position that was the next one is free only where there is room
    pub see_free-lt :
        (pos : ℕ)
        → pos ≤ s.enqueue_pos
        → mark capacity s pos ≡ pos
        → pos < floor capacity s + capacity
    see_free-lt pos h e = elim (dec_lt pos (floor capacity s + capacity)) [
      | yes l ↦ l
      | no l ↦
          let q : pos ≡ floor capacity s + capacity = omega (arith, inv.room) in
          let k : mark capacity s pos ≡ mark capacity s (floor capacity s) =
            rw q (ap s.sequence (slot-add_capacity capacity (floor capacity s) (omega arith))) in
          absurd (ground (arith, inv.live (floor capacity s)))
    ]

    -- a push sees the ring full only where it is
    pub see_full-eq :
        (pos : ℕ)
        → pos ≤ s.enqueue_pos
        → signed_lt (mark capacity s pos) pos ≡ true
        → s.enqueue_pos ≡ floor capacity s + capacity
    see_full-eq pos h e = elim (dec_lt pos (floor capacity s + capacity)) [
      | yes l ↦ absurd (
          ground (
            arith,
            inv.above pos l,
            inv.counted,
            inv.small (slot capacity pos) (slot-lt capacity pos (omega arith)),
          ))
      | no l ↦ omega (arith, inv.room)
    ]
