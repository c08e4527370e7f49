-- ===== src/Realtime/Ring/Claim.antt =====
-- Claiming a position and writing to its cell.
use onebeat.Prelude.{
  ℕ, suc, ◌+◌, ◌^◌, ◌≤◌, ◌<◌, ◌≡◌, ◌≢◌, refl, sym, subst, ◌∙◌, false, ◌⊎◌, inl, inr, ◌==◌, ==_iff,
  arith,
}
use native.Mathlib.Decide.{dec_lt}
use onebeat.Realtime.Publisher.{add_u64}
use onebeat.Realtime.Ring.{
  slot, claiming, writing, publishing, Consumer, resting, polling, checking, taking, reading,
  releasing, System, at,
}
use onebeat.Realtime.Ring.Slots.{slot-ne}
use onebeat.Realtime.Ring.Invariant.{
  Owns, floor, mark, Claimed, Published, Pushes, Pops, Inv, Keeps, Pushes-Keeps, pushes-at, sole-at,
  floor-le, first-at, Owns-Claimed,
}

-- cells of two positions in the window
pub apart :
    (c f p q : ℕ) → f ≤ p → p < f + c → f ≤ q → q < f + c → p ≢ q → (slot c p == slot c q) ≡ false
apart c f p q a b d e n = elim (dec_lt p q) [
  | yes l ↦ ground (arith, slot-ne c p q)
  | no l ↦ ground (arith, slot-ne c q p)
]

module _ {capacity : ℕ} {s : System} {n : ℕ} (inv : Inv capacity s n)
    (bound : n + capacity + 2 < 2 ^ 63) where
  pub owner_sole : (i j p : ℕ) → i ≢ j → Owns (s.producers i) p → ¬ Owns (s.producers j) p
  owner_sole i j p ne a b = ne (inv.sole i j p a b)

  pub owned : (j p : ℕ) → Owns (s.producers j) p → Claimed capacity s p
  owned j p o = Owns-Claimed capacity s (s.producers j) p (inv.pushes j) o

  module _ (i v pos : ℕ) (e : s.producers i ≡ claiming v pos) (now : s.enqueue_pos ≡ pos) where
    abbrev claimed : System
    claimed = record s {
      enqueue_pos = add_u64 pos 1;
      producers = at s.producers i (writing v pos);
      sent = at s.sent pos v;
    }

    pub claim-lt : pos < floor capacity s + capacity
    claim-lt = subst (Pushes capacity s) e (inv.pushes i)

    claim-next : add_u64 pos 1 ≡ suc pos
    claim-next = omega (arith, inv.counted)

    claim-floor : floor capacity s ≤ pos
    claim-floor = omega (arith, floor-le capacity s s.consumer inv.pops, inv.taken)

    claim-mark : mark capacity s pos ≡ pos
    claim-mark = elim (inv.live pos claim-floor claim-lt) [
      | inl free ↦ free
      | inr taken ↦ absurd (omega (arith, taken.1))
    ]

    claim-sent : (p : ℕ) → p < s.enqueue_pos → at s.sent pos v p ≡ s.sent p
    claim-sent p h = ground (arith, ==_iff pos p)

    claim-Keeps : (p : ℕ) → p < s.enqueue_pos → Keeps capacity s claimed p
    claim-Keeps p h = record {
      claimed = λ k. (k.0, omega (arith, claim-next), k.2);
      same_sent = claim-sent p h;
      same_content = refl;
    }

    claim-Pops : (c : Consumer) → Pops capacity s c → Pops capacity claimed c
    claim-Pops (releasing p out) h = (h.0, h.1, h.2 ∙ sym (claim-sent p (omega (arith, inv.taken))))
    claim-Pops resting h = h
    claim-Pops polling h = h
    claim-Pops (checking p) h = h
    claim-Pops (taking p) h = h
    claim-Pops (reading p) h = h

    claim-live :
        (p : ℕ)
        → (mark capacity s p ≡ p) ⊎ Published capacity s p
        → (mark capacity s p ≡ p) ⊎ Published capacity claimed p
    claim-live p (inl free) = inl free
    claim-live p (inr m) = inr (m.0, omega (arith, claim-next), m.2 ∙ sym (claim-sent p m.1))

    pub claim-Inv : Inv capacity claimed (suc n)
    claim-Inv = record {
      counted = omega (arith, claim-next, inv.counted);
      room = omega (arith, claim-next, claim-lt);
      taken = omega (arith, claim-next, inv.taken);
      above = inv.above;
      small = λ k l. omega (arith, inv.small k l);
      live = λ p a b. claim-live p (inv.live p a b);
      pushes =
          pushes-at s.producers i (writing v pos) (Pushes capacity claimed)
            ((claim-floor, omega (arith, claim-next), claim-mark), ground (arith, ==_iff pos pos))
            (λ j ne.
              Pushes-Keeps (omega arith) (omega (arith, claim-next)) (s.producers j)
                (λ p o. claim-Keeps p ((owned j p o).1)) (inv.pushes j));
      sole =
          sole-at s.producers i (writing v pos) inv.sole
            (λ j p ne x y. omega (arith, (owned j p y).1));
      pops = claim-Pops s.consumer inv.pops;
      delivered = inv.delivered ∙ sym (first-at s.sent (floor capacity s) pos v claim-floor);
    }

  module _ (i v pos : ℕ) (e : s.producers i ≡ writing v pos) where
    abbrev written : System
    written = record s {
      content = at s.content (slot capacity pos) v;
      producers = at s.producers i (publishing pos);
    }

    write-Claimed : Claimed capacity s pos × (s.sent pos ≡ v)
    write-Claimed = subst (Pushes capacity s) e (inv.pushes i)

    write-content :
        (p : ℕ)
        → floor capacity s ≤ p
        → p < floor capacity s + capacity
        → p ≢ pos
        → at s.content (slot capacity pos) v (slot capacity p) ≡ s.content (slot capacity p)
    write-content p a b ne = ground (
      arith,
      apart capacity (floor capacity s) pos p,
      write-Claimed,
      inv.room,
      λ (q : pos ≡ p). ne (sym q),
    )

    write-live :
        (p : ℕ)
        → floor capacity s ≤ p
        → p < floor capacity s + capacity
        → (mark capacity s p ≡ p) ⊎ Published capacity s p
        → (mark capacity s p ≡ p) ⊎ Published capacity written p
    write-live p a b (inl free) = inl free
    write-live p a b (inr m) =
        inr (m.0, m.1, write-content p a b (λ q. ground (arith, write-Claimed, m.0, q)) ∙ m.2)

    write-Keeps : (p : ℕ) → Claimed capacity s p → p ≢ pos → Keeps capacity s written p
    write-Keeps p h ne = record {
      claimed = λ k. k;
      same_sent = refl;
      same_content = write-content p h.0 (omega (arith, h.1, inv.room)) ne;
    }

    pub write-Inv : Inv capacity written (suc n)
    write-Inv = record {
      counted = omega (arith, inv.counted);
      room = inv.room;
      taken = inv.taken;
      above = inv.above;
      small = λ k l. omega (arith, inv.small k l);
      live = λ p a b. write-live p a b (inv.live p a b);
      pushes =
          pushes-at s.producers i (publishing pos) (Pushes capacity written)
            (
              write-Claimed.0,
              ground (arith, ==_iff (slot capacity pos) (slot capacity pos), write-Claimed.1),
            )
            (λ j ne.
              Pushes-Keeps (omega arith) (omega arith) (s.producers j)
                (λ p o. write-Keeps p (owned j p o) (λ q. owner_sole i j p ne (rw e q) o))
                (inv.pushes j));
      sole =
          sole-at s.producers i (publishing pos) inv.sole
            (λ j p ne x y. owner_sole i j p ne (rw e x) y);
      pops = inv.pops;
      delivered = inv.delivered;
    }
