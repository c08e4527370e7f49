-- ===== src/Realtime/Ring/Fifo.antt =====
-- The ring of engine/src/core/rt/mpsc_ring.h and a queue of bounded length.
use onebeat.Prelude.{
  ℕ, zero, suc, ◌+◌, ◌-◌, ◌^◌, ◌≤◌, ◌<◌, ◌≡◌, refl, sym, ap, ap₂, subst, ◌∙◌, true, List, [], ◌∷◌,
  ◌++◌, ◌⊎◌, inl, inr, length, ==_iff, arith,
}
use onebeat.Realtime.Publisher.{add_u64}
use onebeat.Realtime.Ring.{
  slot, pushing, Consumer, resting, polling, checking, taking, reading, releasing, System, at,
  signed_lt, Step, call_push, load_enqueue, see_free, see_full, see_taken, claim, miss, write,
  publish, call_pop, load_dequeue, see_message, see_empty, see_passed, take, miss_take, read,
  release, Reach, start, later,
}
use onebeat.Realtime.Ring.Invariant.{released, first, floor, Pushes, Pops, Inv, floor-le, first-at}
use onebeat.Realtime.Ring.Moves.{see_full-eq}
use onebeat.Realtime.Ring.Claim.{claim-lt}
use onebeat.Realtime.Ring.Publish.{take-lt}
use onebeat.Realtime.Ring.Steps.{Reach-Inv}

-- A queue of bounded length, with what has left it, oldest first.
pub data QueueRun (capacity : ℕ) : List ℕ → List ℕ → Type 0 where
  empty : QueueRun capacity [] []
  put :
      {queue gone : List ℕ} (value : ℕ)
      → QueueRun capacity queue gone
      → length queue < capacity
      → QueueRun capacity (queue ++ value ∷ []) gone
  get :
      {value : ℕ} {queue gone : List ℕ}
      → QueueRun capacity (value ∷ queue) gone
      → QueueRun capacity queue (gone ++ value ∷ [])

-- The messages from a position on.
abbrev pub window : (ℕ → ℕ) → ℕ → ℕ → List ℕ
window f p zero = []
window f p (suc n) = f p ∷ window f (suc p) n

-- Claimed and not yet taken, and taken.
abbrev pub contents : System → List ℕ
contents s = window s.sent s.dequeue_pos (s.enqueue_pos - s.dequeue_pos)

abbrev pub gone : System → List ℕ
gone s = first s.sent s.dequeue_pos

length-window : (f : ℕ → ℕ) (p n : ℕ) → length (window f p n) ≡ n
length-window f p zero = refl
length-window f p (suc n) = ap suc (length-window f (suc p) n)

window-snoc : (f : ℕ → ℕ) (p n : ℕ) → window f p (suc n) ≡ window f p n ++ f (p + n) ∷ []
window-snoc f p zero = ap (λ k. f k ∷ []) (omega arith)
window-snoc f p (suc n) =
    ap (λ xs. f p ∷ xs)
      (window-snoc f (suc p) n ∙ ap (λ k. window f (suc p) n ++ f k ∷ []) (omega arith))

window-at : (f : ℕ → ℕ) (p n pos v : ℕ) → p + n ≤ pos → window (at f pos v) p n ≡ window f p n
window-at f p zero pos v h = refl
window-at f p (suc n) pos v h =
    ap₂ ◌∷◌ (ground (arith, ==_iff pos p)) (window-at f (suc p) n pos v (omega arith))

module _ (capacity : ℕ) (two : 2 ≤ capacity) where
  claim-QueueRun :
      {s : System} {n : ℕ} (pos v : ℕ)
      → Inv capacity s n
      → n + capacity + 2 < 2 ^ 63
      → s.enqueue_pos ≡ pos
      → pos < floor capacity s + capacity
      → QueueRun capacity (contents s) (gone s)
      → QueueRun capacity
          (window (at s.sent pos v) s.dequeue_pos (add_u64 pos 1 - s.dequeue_pos))
          (first (at s.sent pos v) s.dequeue_pos)
  claim-QueueRun {s} pos v inv h now room q =
      subst (λ xs. QueueRun capacity xs (first (at s.sent pos v) s.dequeue_pos)) (sym longer)
        (subst (QueueRun capacity (contents s ++ v ∷ []))
          (sym (first-at s.sent s.dequeue_pos pos v (omega (arith, inv.taken))))
          (put v q (
            omega (
              arith,
              length-window s.sent s.dequeue_pos (s.enqueue_pos - s.dequeue_pos),
              floor-le capacity s s.consumer inv.pops,
            ))))
    where
      longer :
          window (at s.sent pos v) s.dequeue_pos (add_u64 pos 1 - s.dequeue_pos)
          ≡ contents s ++ v ∷ []
      longer =
          ap (window (at s.sent pos v) s.dequeue_pos) {y = suc (s.enqueue_pos - s.dequeue_pos)}
            (omega (arith, inv.taken, inv.counted))
          ∙ window-snoc (at s.sent pos v) s.dequeue_pos (s.enqueue_pos - s.dequeue_pos)
          ∙ ap₂ (λ xs x. xs ++ x ∷ [])
              (window-at s.sent s.dequeue_pos (s.enqueue_pos - s.dequeue_pos) pos v
                (omega (arith, inv.taken)))
              (ground
                (arith, ==_iff pos (s.dequeue_pos + (s.enqueue_pos - s.dequeue_pos)), inv.taken))

  take-QueueRun :
      {s : System} {n : ℕ} (pos : ℕ)
      → Inv capacity s n
      → n + capacity + 2 < 2 ^ 63
      → s.dequeue_pos ≡ pos
      → pos < s.enqueue_pos
      → QueueRun capacity (contents s) (gone s)
      → QueueRun capacity
          (window s.sent (add_u64 pos 1) (s.enqueue_pos - add_u64 pos 1))
          (first s.sent (add_u64 pos 1))
  take-QueueRun {s} pos inv h now lt q =
      let next : add_u64 pos 1 ≡ suc s.dequeue_pos = omega (arith, inv.counted) in
      rw next (get (subst (λ xs. QueueRun capacity xs (gone s)) shorter q))
    where
      shorter : contents s ≡ window s.sent s.dequeue_pos (suc (s.enqueue_pos - suc s.dequeue_pos))
      shorter =
          ap (window s.sent s.dequeue_pos) {y = suc (s.enqueue_pos - suc s.dequeue_pos)}
            (omega arith)

  handed_out :
      (s : System) (c : Consumer)
      → Pops capacity s c
      → s.received ≡ first s.sent (released c s.dequeue_pos)
      → (s.received ≡ gone s)
        ⊎ ((p : ℕ) × (s.dequeue_pos ≡ suc p) × (s.received ++ s.sent p ∷ [] ≡ gone s))
  handed_out s (reading pos) h e = inr (pos, h.0, rw e (ap (first _) (sym h.0)))
  handed_out s (releasing pos out) h e = inr (pos, h.0, rw e (ap (first _) (sym h.0)))
  handed_out s resting h e = inl e
  handed_out s polling h e = inl e
  handed_out s (checking pos) h e = inl e
  handed_out s (taking pos) h e = inl e

  step-QueueRun :
      {s t : System} {n : ℕ}
      → Step capacity s t
      → Inv capacity s n
      → n + capacity + 2 < 2 ^ 63
      → QueueRun capacity (contents s) (gone s)
      → QueueRun capacity (contents t) (gone t)
  step-QueueRun (claim i {value} {pos} e q) inv h r =
      claim-QueueRun pos value inv h q (claim-lt inv h i value pos e q) r
  step-QueueRun (take {pos} e q) inv h r = take-QueueRun pos inv h q (take-lt inv two h pos e) r
  step-QueueRun (call_push i v e) inv h r = r
  step-QueueRun (load_enqueue i e) inv h r = r
  step-QueueRun (see_free i e q) inv h r = r
  step-QueueRun (see_full i e q) inv h r = r
  step-QueueRun (see_taken i e q l) inv h r = r
  step-QueueRun (miss i e) inv h r = r
  step-QueueRun (write i e) inv h r = r
  step-QueueRun (publish i e) inv h r = r
  step-QueueRun (call_pop e) inv h r = r
  step-QueueRun (load_dequeue e) inv h r = r
  step-QueueRun (see_message e q) inv h r = r
  step-QueueRun (see_empty e q) inv h r = r
  step-QueueRun (see_passed e q l) inv h r = r
  step-QueueRun (miss_take e) inv h r = r
  step-QueueRun (read e) inv h r = r
  step-QueueRun (release e) inv h r = r

  queue_of :
      {n : ℕ} {s : System}
      → Reach capacity n s
      → n + capacity + 2 < 2 ^ 63
      → QueueRun capacity (contents s) (gone s)
  queue_of start h = empty
  queue_of (later r st) h =
      step-QueueRun st (Reach-Inv capacity two r (omega arith)) (omega arith)
        (queue_of r (omega arith))

  -- The ring with any number of pushing threads and one popping, in any order of their steps, is a
  -- queue of the ring's capacity: what is claimed and not taken, and what has been taken, are what some
  -- run of that queue holds and has handed out; and what `tryPop` has returned is what was taken, but
  -- for the one message whose pop is under way. So no message is lost, doubled or overtaken. For a
  -- capacity of at least 2 and fewer than 2^63 steps, less the capacity.
  pub Reach-QueueRun :
      {n : ℕ} {s : System}
      → Reach capacity n s
      → n + capacity + 2 < 2 ^ 63
      → QueueRun capacity (contents s) (gone s)
        × ((s.received ≡ gone s)
            ⊎ ((p : ℕ) × (s.dequeue_pos ≡ suc p) × (s.received ++ s.sent p ∷ [] ≡ gone s)))
  Reach-QueueRun {s} r h =
      let inv = Reach-Inv capacity two r h in
      (queue_of r h, handed_out s s.consumer inv.pops inv.delivered)

  -- `tryPush` returns false only on a full ring, and `tryPop` only where the next message is not there:
  -- in any state that fewer than 2^63 steps, less the capacity, lead to, a push that sees the ring as
  -- full finds every cell claimed and not yet released by the pop; and a pop that sees the ring as empty
  -- finds that the position it is at has not been published, claimed or not.
  pub refusals_lem :
      {n : ℕ} {s : System}
      → Reach capacity n s
      → n + capacity + 2 < 2 ^ 63
      → ((i value pos : ℕ)
          → s.producers i ≡ pushing value pos
          → signed_lt (s.sequence (slot capacity pos)) pos ≡ true
          → s.enqueue_pos ≡ floor capacity s + capacity)
        × ((pos : ℕ)
            → s.consumer ≡ checking pos
            → signed_lt (s.sequence (slot capacity pos)) (add_u64 pos 1) ≡ true
            → (pos ≡ s.dequeue_pos) × (s.sequence (slot capacity pos) ≡ pos))
  refusals_lem {n} {s} r h = (
    λ i value pos e q. see_full-eq inv two h pos (subst (Pushes capacity s) e (inv.pushes i)) q,
    λ pos e q.
        let here : pos ≡ s.dequeue_pos = subst (Pops capacity s) e inv.pops in
        let f : floor capacity s ≡ pos = rw e (sym here) in
        (
          here,
          elim (inv.live pos (omega (arith, f)) (omega (arith, f))) [
            | inl free ↦ free
            | inr full ↦ absurd (ground (arith, full.0, inv.taken, inv.counted, full.1))
          ],
        ),
  )
    where
      inv : Inv capacity s n
      inv = Reach-Inv capacity two r h
