-- ===== src/Realtime/Ring/Publish.antt =====
-- Publishing a message, taking one, and releasing its cell.
use onebeat.Prelude.{
  ℕ, suc, ◌+◌, ◌^◌, ◌≤◌, ◌<◌, ◌≡◌, ◌≢◌, refl, sym, ap, ap₂, subst, ◌∙◌, false, [], ◌∷◌, ◌++◌, ◌⊎◌,
  inl, inr, ◌==◌, ==_iff, arith,
}
use native.Mathlib.Decide.{dec_lt, ℕ_discrete}
use onebeat.Realtime.Publisher.{add_u64}
use onebeat.Realtime.Ring.{
  slot, mask, idle, publishing, Consumer, resting, polling, checking, taking, reading, releasing,
  System, at,
}
use onebeat.Realtime.Ring.Slots.{slot-ne, slot-add_capacity}
use onebeat.Realtime.Ring.Invariant.{
  first, floor, mark, Claimed, Published, Pushes, Pops, Inv, Keeps, Pushes-Keeps, pushes-at,
  sole-at,
}
use onebeat.Realtime.Ring.Claim.{apart, owner_sole, owned}
use onebeat.Realtime.Ring.Moves.{consumer-Inv}

-- what a write to one cell leaves of the marks
at-other : (f : ℕ → ℕ) (i v j : ℕ) → (i == j) ≡ false → at f i v j ≡ f j
at-other f i v j h = rw h refl

at_self : (f : ℕ → ℕ) (i v : ℕ) → at f i v i ≡ v
at_self f i v = ground (arith, ==_iff i i)

module _ {capacity : ℕ} {s : System} {n : ℕ} (inv : Inv capacity s n) (two : 2 ≤ capacity)
    (bound : n + capacity + 2 < 2 ^ 63) where
  module _ (i pos : ℕ) (e : s.producers i ≡ publishing pos) where
    abbrev published : System
    published = record s {
      sequence = at s.sequence (slot capacity pos) (add_u64 pos 1);
      producers = at s.producers i idle;
    }

    mine : Claimed capacity s pos × (s.content (slot capacity pos) ≡ s.sent pos)
    mine = subst (Pushes capacity s) e (inv.pushes i)

    next : add_u64 pos 1 ≡ suc pos
    next = omega (arith, mine.0, inv.counted)

    publish-mark :
        (p : ℕ)
        → floor capacity s ≤ p
        → p < floor capacity s + capacity
        → p ≢ pos
        → mark capacity published p ≡ mark capacity s p
    publish-mark p a b ne =
        at-other s.sequence (slot capacity pos) (add_u64 pos 1) (slot capacity p) (
          apart capacity (floor capacity s) pos p mine.0.0 (omega (arith, mine.0.1, inv.room)) a b
            (λ q. ne (sym q)))

    publish-own : mark capacity published pos ≡ suc pos
    publish-own = at_self s.sequence (slot capacity pos) (add_u64 pos 1) ∙ next

    publish-above : (p : ℕ) → p < floor capacity s + capacity → p ≤ mark capacity published p
    publish-above p h = elim (dec_lt pos p) [
      | yes l ↦ ground (arith, slot-ne capacity pos p, mine.0.0, inv.above p h)
      | no l ↦ ground (arith, next, inv.above p h)
    ]

    publish-live :
        (p : ℕ)
        → floor capacity s ≤ p
        → p < floor capacity s + capacity
        → (mark capacity s p ≡ p) ⊎ Published capacity s p
        → (mark capacity published p ≡ p) ⊎ Published capacity published p
    publish-live p a b m = elim (ℕ_discrete p pos) [
      | yes q ↦ inr (
        subst (λ k. mark capacity published k ≡ suc k) (sym q) publish-own,
        omega (arith, mine.0.1, q),
        subst (λ k. s.content (slot capacity k) ≡ s.sent k) (sym q) mine.1,
      )
      | no ne ↦
          let same : mark capacity published p ≡ mark capacity s p = publish-mark p a b ne in
          elim m [ inl free ↦ inl (same ∙ free) | inr full ↦ inr (same ∙ full.0, full.1, full.2) ]
    ]

    -- the position that the consumer is at has been published before
    publish-passed :
        (p : ℕ)
        → floor capacity s ≡ p
        → mark capacity s p ≡ suc p
        → mark capacity published p ≡ suc p
    publish-passed p f m =
        publish-mark p (omega (arith, f)) (omega (arith, f)) (λ q. ground (arith, mine.0, m, q)) ∙ m

    publish-Pops : (c : Consumer) → s.consumer ≡ c → Pops capacity s c → Pops capacity published c
    publish-Pops resting q h = h
    publish-Pops polling q h = h
    publish-Pops (checking p) q h = h
    publish-Pops (taking p) q h = (h.0, publish-passed p (rw q (sym h.0)) h.1)
    publish-Pops (reading p) q h = (h.0, publish-passed p (rw q refl) h.1)
    publish-Pops (releasing p out) q h = (h.0, publish-passed p (rw q refl) h.1, h.2)

    pub publish-Inv : Inv capacity published (suc n)
    publish-Inv = record {
      counted = omega (arith, inv.counted);
      room = inv.room;
      taken = inv.taken;
      above = publish-above;
      small = λ k l. ground (arith, inv.small k l, next, mine.0.1, inv.counted);
      live = λ p a b. publish-live p a b (inv.live p a b);
      pushes = pushes-at s.producers i idle (Pushes capacity published) tt (λ j ne.
          Pushes-Keeps (omega arith) (omega arith) (s.producers j)
            (λ p o. keeps p (owned inv bound j p o) (λ q. owner_sole inv bound i j p ne (rw e q) o))
            (inv.pushes j));
      sole = sole-at s.producers i idle inv.sole (λ j p ne x y. x);
      pops = publish-Pops s.consumer refl inv.pops;
      delivered = inv.delivered;
    }
      where
        keeps : (p : ℕ) → Claimed capacity s p → p ≢ pos → Keeps capacity s published p
        keeps p h ne = record {
          claimed = λ k. (k.0, k.1, publish-mark p h.0 (omega (arith, h.1, inv.room)) ne ∙ k.2);
          same_sent = refl;
          same_content = refl;
        }

  module _ (pos : ℕ) where
    module _ (e : s.consumer ≡ taking pos) where
      abbrev took : System
      took = record s { dequeue_pos = add_u64 pos 1; consumer = reading pos }

      take-here : (pos ≡ s.dequeue_pos) × (mark capacity s pos ≡ suc pos)
      take-here = subst (Pops capacity s) e inv.pops

      take-floor : floor capacity s ≡ pos
      take-floor = rw e (sym take-here.0)

      pub take-lt : pos < s.enqueue_pos
      take-lt = elim (inv.live pos (omega (arith, take-floor)) (omega (arith, take-floor))) [
        | inl free ↦ absurd (ground (arith, free, take-here.1))
        | inr full ↦ full.1
      ]

      pub take-Inv : Inv capacity took (suc n)
      take-Inv = record {
        counted = omega (arith, inv.counted);
        room = omega (arith, take-floor, inv.room);
        taken = omega (arith, take-lt, inv.counted);
        above = λ p l. inv.above p (omega (arith, take-floor));
        small = λ k l. omega (arith, inv.small k l);
        live = λ p a b. inv.live p (omega (arith, take-floor)) (omega (arith, take-floor));
        pushes = λ j.
            Pushes-Keeps {capacity = capacity} {s = s} {t = took} (omega (arith, take-floor))
              (omega arith) (s.producers j)
              (λ p o. record {
                claimed = λ k. (omega (arith, take-floor, k.0), k.1, k.2);
                same_sent = refl;
                same_content = refl;
              })
              (inv.pushes j);
        sole = inv.sole;
        pops = (omega (arith, take-lt, inv.counted), take-here.1);
        delivered = inv.delivered ∙ ap (first s.sent) take-floor;
      }

    pub read-Inv :
        s.consumer ≡ reading pos
        → Inv capacity
            (record s { consumer = releasing pos (s.content (slot capacity pos)) })
            (suc n)
    read-Inv e =
        consumer-Inv inv (releasing pos (s.content (slot capacity pos))) (rw e refl)
          (here.0, here.1, content (inv.live pos (rw e (omega arith)) (rw e (omega arith))))
      where
        here : (s.dequeue_pos ≡ suc pos) × (mark capacity s pos ≡ suc pos)
        here = subst (Pops capacity s) e inv.pops

        content :
            (mark capacity s pos ≡ pos) ⊎ Published capacity s pos
            → s.content (slot capacity pos) ≡ s.sent pos
        content (inl free) = absurd (ground (arith, free, here.1))
        content (inr full) = full.2

    module _ (out : ℕ) (e : s.consumer ≡ releasing pos out) where
      abbrev freed : System
      freed = record s {
        sequence = at s.sequence (slot capacity pos) (add_u64 (add_u64 pos (mask capacity)) 1);
        consumer = resting;
        received = s.received ++ out ∷ [];
      }

      last : (s.dequeue_pos ≡ suc pos) × (mark capacity s pos ≡ suc pos) × (out ≡ s.sent pos)
      last = subst (Pops capacity s) e inv.pops

      release-floor : floor capacity s ≡ pos
      release-floor = rw e refl

      release-next : add_u64 (add_u64 pos (mask capacity)) 1 ≡ pos + capacity
      release-next = omega (arith, inv.counted, inv.taken, last.0)

      release-mark :
          (p : ℕ) → pos < p → p < pos + capacity → mark capacity freed p ≡ mark capacity s p
      release-mark p a b =
          at-other s.sequence (slot capacity pos) (add_u64 (add_u64 pos (mask capacity)) 1)
            (slot capacity p)
            (apart capacity pos pos p (omega arith) (omega arith) (omega arith) b (omega arith))

      release-own : mark capacity freed (pos + capacity) ≡ pos + capacity
      release-own =
          ap (at s.sequence (slot capacity pos) (add_u64 (add_u64 pos (mask capacity)) 1))
            (slot-add_capacity capacity pos (omega arith))
          ∙ at_self s.sequence (slot capacity pos) (add_u64 (add_u64 pos (mask capacity)) 1)
          ∙ release-next

      release-above : (p : ℕ) → p < suc pos + capacity → p ≤ mark capacity freed p
      release-above p h = elim (dec_lt p (pos + capacity)) [
        | yes l ↦ ground (arith, release-next, inv.above p (omega (arith, release-floor)))
        | no l ↦
            let q : p ≡ pos + capacity = omega arith in
            subst (λ k. k ≤ mark capacity freed k) (sym q) (omega (arith, release-own))
      ]

      release-live :
          (p : ℕ)
          → suc pos ≤ p
          → p < suc pos + capacity
          → (mark capacity freed p ≡ p) ⊎ Published capacity freed p
      release-live p a b = elim (dec_lt p (pos + capacity)) [
        | yes l ↦
            let same : mark capacity freed p ≡ mark capacity s p = release-mark p a l in
            elim (inv.live p (omega (arith, release-floor)) (omega (arith, release-floor))) [
              | inl free ↦ inl (same ∙ free)
              | inr full ↦ inr (same ∙ full.0, full.1, full.2)
            ]
        | no l ↦
            let q : p ≡ pos + capacity = omega arith in
            inl (subst (λ k. mark capacity freed k ≡ k) (sym q) release-own)
      ]

      release-Keeps : (p : ℕ) → Claimed capacity s p → Keeps capacity s freed p
      release-Keeps p h = record {
        claimed = λ k. (
          omega (arith, after, last.0),
          k.1,
          release-mark p after (omega (arith, h.1, inv.room, release-floor)) ∙ k.2,
        );
        same_sent = refl;
        same_content = refl;
      }
        where
          after : pos < p
          after = elim (ℕ_discrete p pos) [
            | yes q ↦ absurd (ground (arith, h.2, last.1, q))
            | no ne ↦ omega (arith, h.0, release-floor)
          ]

      pub release-Inv : Inv capacity freed (suc n)
      release-Inv = record {
        counted = omega (arith, inv.counted);
        room = omega (arith, last.0, release-floor, inv.room);
        taken = inv.taken;
        above = λ p l. release-above p (omega (arith, last.0));
        small = λ k l. ground (arith, release-next, inv.small k l, inv.counted, inv.taken, last.0);
        live = λ p a b. release-live p (omega (arith, last.0)) (omega (arith, last.0));
        pushes = λ j.
            Pushes-Keeps (omega (arith, last.0, release-floor)) (omega arith) (s.producers j)
              (λ p o. release-Keeps p (owned inv bound j p o)) (inv.pushes j);
        sole = inv.sole;
        pops = tt;
        delivered =
            ap₂ (λ xs x. xs ++ x ∷ []) (inv.delivered ∙ ap (first s.sent) release-floor) last.2
            ∙ ap (first s.sent) (sym last.0);
      }
