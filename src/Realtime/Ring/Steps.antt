-- ===== src/Realtime/Ring/Steps.antt =====
-- The invariant of the ring, step by step.
use onebeat.Prelude.{ℕ, suc, ◌+◌, ◌^◌, ◌≤◌, ◌<◌, ◌≡◌, refl, subst, ◌∙◌, inl, arith}
use onebeat.Realtime.Ring.{
  idle, reloading, pushing, claiming, resting, polling, checking, taking, System, init, Step,
  call_push, load_enqueue, see_free, see_full, see_taken, claim, miss, write, publish, call_pop,
  load_dequeue, see_message, see_empty, see_passed, take, miss_take, read, release, Reach, start,
  later,
}
use onebeat.Realtime.Ring.Slots.{slot-of_lt}
use onebeat.Realtime.Ring.Invariant.{Pushes, Pops, Inv}
use onebeat.Realtime.Ring.Moves.{producer-Inv, consumer-Inv, see_free-lt}
use onebeat.Realtime.Ring.Claim.{claim-Inv, write-Inv}
use onebeat.Realtime.Ring.Publish.{publish-Inv, take-Inv, read-Inv, release-Inv}

module _ (capacity : ℕ) (two : 2 ≤ capacity) where
  pub Step-Inv :
      {s t : System} {n : ℕ}
      → Step capacity s t
      → Inv capacity s n
      → n + capacity + 2 < 2 ^ 63
      → Inv capacity t (suc n)
  Step-Inv (call_push i v e) inv h = producer-Inv inv i (reloading v) tt (λ p o. o)
  Step-Inv {s} (load_enqueue i {value} e) inv h =
      producer-Inv inv i (pushing value s.enqueue_pos) (omega arith) (λ p o. o)
  Step-Inv {s} (see_free i {value} {pos} e q) inv h =
      producer-Inv inv i (claiming value pos)
        (see_free-lt inv two h pos (subst (Pushes capacity s) e (inv.pushes i)) q) (λ p o. o)
  Step-Inv (see_full i e q) inv h = producer-Inv inv i idle tt (λ p o. o)
  Step-Inv (see_taken i {value} e q r) inv h = producer-Inv inv i (reloading value) tt (λ p o. o)
  Step-Inv (claim i {value} {pos} e q) inv h = claim-Inv inv h i value pos e q
  Step-Inv {s} (miss i {value} e) inv h =
      producer-Inv inv i (pushing value s.enqueue_pos) (omega arith) (λ p o. o)
  Step-Inv (write i {value} {pos} e) inv h = write-Inv inv h i value pos e
  Step-Inv (publish i {pos} e) inv h = publish-Inv inv two h i pos e
  Step-Inv (call_pop e) inv h = consumer-Inv inv polling (rw e refl) tt
  Step-Inv {s} (load_dequeue e) inv h = consumer-Inv inv (checking s.dequeue_pos) (rw e refl) refl
  Step-Inv {s} (see_message {pos} e q) inv h =
      let here : pos ≡ s.dequeue_pos = subst (Pops capacity s) e inv.pops in
      consumer-Inv inv (taking pos) (rw e refl)
        (here, q ∙ omega (arith, here, inv.taken, inv.counted))
  Step-Inv (see_empty e q) inv h = consumer-Inv inv resting (rw e refl) tt
  Step-Inv (see_passed e q r) inv h = consumer-Inv inv polling (rw e refl) tt
  Step-Inv (take {pos} e q) inv h = take-Inv inv two h pos e
  Step-Inv {s} (miss_take e) inv h = consumer-Inv inv (checking s.dequeue_pos) (rw e refl) refl
  Step-Inv (read {pos} e) inv h = read-Inv inv two h pos e
  Step-Inv (release {pos} {out} e) inv h = release-Inv inv two h pos out e

  init-Inv : Inv capacity init 0
  init-Inv = record {
    counted = omega arith;
    room = omega arith;
    taken = omega arith;
    above = λ p h. omega (arith, slot-of_lt capacity p (omega arith));
    small = λ i h. omega arith;
    live = λ p a b. inl (slot-of_lt capacity p (omega arith));
    pushes = λ i. tt;
    sole = λ i j p x y. absurd x;
    pops = tt;
    delivered = refl;
  }

  pub Reach-Inv :
      {n : ℕ} {s : System} → Reach capacity n s → n + capacity + 2 < 2 ^ 63 → Inv capacity s n
  Reach-Inv start h = init-Inv
  Reach-Inv (later r st) h = Step-Inv st (Reach-Inv r (omega arith)) (omega arith)
