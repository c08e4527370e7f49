-- ===== src/Realtime/Ring/Invariant.antt =====
-- The cells of the ring: which are free, which belong to a push, which hold a message.
use onebeat.Prelude.{
  ℕ, zero, suc, ◌+◌, ◌≤◌, ◌<◌, ◌≡◌, ◌≢◌, refl, sym, ap₂, ◌∙◌, List, [], ◌∷◌, ◌++◌, ◌⊎◌, inl, inr,
  ◌==◌, ==_iff, Bool-cases, arith,
}
use onebeat.Realtime.Ring.{
  slot, Producer, idle, reloading, pushing, claiming, writing, publishing, Consumer, resting,
  polling, checking, taking, reading, releasing, System, at,
}

-- Positions below this one have been released by the consumer.
abbrev pub released : Consumer → ℕ → ℕ
released (reading pos) dequeue_pos = pos
released (releasing pos out) dequeue_pos = pos
released _ dequeue_pos = dequeue_pos

-- The messages of the first positions.
abbrev pub first : (ℕ → ℕ) → ℕ → List ℕ
first f zero = []
first f (suc n) = first f n ++ f n ∷ []

-- A push owns the cell of the position that it has claimed, until it publishes it.
abbrev pub Owns : Producer → ℕ → Type 0
Owns (writing value pos) p = p ≡ pos
Owns (publishing pos) p = p ≡ pos
Owns _ p = ⊥

module _ (capacity : ℕ) (s : System) where
  abbrev pub floor : ℕ
  floor = released s.consumer s.dequeue_pos

  abbrev pub mark : ℕ → ℕ
  mark p = s.sequence (slot capacity p)

  -- claimed and not yet published
  abbrev pub Claimed : ℕ → Type 0
  Claimed p = (floor ≤ p) × (p < s.enqueue_pos) × (mark p ≡ p)

  abbrev pub Published : ℕ → Type 0
  Published p = (mark p ≡ suc p) × (p < s.enqueue_pos) × (s.content (slot capacity p) ≡ s.sent p)

  abbrev pub Pushes : Producer → Type 0
  Pushes (pushing value pos) = pos ≤ s.enqueue_pos
  Pushes (claiming value pos) = pos < floor + capacity
  Pushes (writing value pos) = Claimed pos × (s.sent pos ≡ value)
  Pushes (publishing pos) = Claimed pos × (s.content (slot capacity pos) ≡ s.sent pos)
  Pushes _ = Unit

  abbrev pub Pops : Consumer → Type 0
  Pops (checking pos) = pos ≡ s.dequeue_pos
  Pops (taking pos) = (pos ≡ s.dequeue_pos) × (mark pos ≡ suc pos)
  Pops (reading pos) = (s.dequeue_pos ≡ suc pos) × (mark pos ≡ suc pos)
  Pops (releasing pos out) = (s.dequeue_pos ≡ suc pos) × (mark pos ≡ suc pos) × (out ≡ s.sent pos)
  Pops _ = Unit

  pub record Inv (n : ℕ) : Type 0 where
    pub counted : s.enqueue_pos ≤ n
    pub room : s.enqueue_pos ≤ floor + capacity
    pub taken : s.dequeue_pos ≤ s.enqueue_pos
    -- no cell falls behind a position that may still be asked for
    pub above : (p : ℕ) → p < floor + capacity → p ≤ mark p
    pub small : (i : ℕ) → i < capacity → s.sequence i ≤ n + capacity
    pub live : (p : ℕ) → floor ≤ p → p < floor + capacity → (mark p ≡ p) ⊎ Published p
    pub pushes : (i : ℕ) → Pushes (s.producers i)
    pub sole : (i j p : ℕ) → Owns (s.producers i) p → Owns (s.producers j) p → i ≡ j
    pub pops : Pops s.consumer
    pub delivered : s.received ≡ first s.sent floor

-- What a step leaves to a push that owns a position.
pub record Keeps (capacity : ℕ) (s t : System) (p : ℕ) : Type 0 where
  pub claimed : Claimed capacity s p → Claimed capacity t p
  pub same_sent : t.sent p ≡ s.sent p
  pub same_content : t.content (slot capacity p) ≡ s.content (slot capacity p)

pub Pushes-Keeps :
    {capacity : ℕ} {s t : System}
    → floor capacity s ≤ floor capacity t
    → s.enqueue_pos ≤ t.enqueue_pos
    → (w : Producer) → ((p : ℕ) → Owns w p → Keeps capacity s t p)
    → Pushes capacity s w
    → Pushes capacity t w
Pushes-Keeps f e idle k h = tt
Pushes-Keeps f e (reloading value) k h = tt
Pushes-Keeps f e (pushing value pos) k h = omega arith
Pushes-Keeps f e (claiming value pos) k h = omega arith
Pushes-Keeps f e (writing value pos) k h = let r = k pos refl in (r.claimed h.0, r.same_sent ∙ h.1)
Pushes-Keeps f e (publishing pos) k h =
    let r = k pos refl in (r.claimed h.0, r.same_content ∙ h.1 ∙ sym r.same_sent)

-- One push moves on.
module _ (ps : ℕ → Producer) (i : ℕ) (w : Producer) where
  pub pushes-at :
      (P : Producer → Type 0) → P w → ((j : ℕ) → i ≢ j → P (ps j)) → (j : ℕ) → P (at ps i w j)
  pushes-at P h k j = elim (Bool-cases (i == j)) [
    | inl e ↦ rw e h
    | inr e ↦ rw e (k j (λ q. ground (arith, ==_iff i j)))
  ]

  pub sole-at :
      ((a b p : ℕ) → Owns (ps a) p → Owns (ps b) p → a ≡ b)
      → ((j p : ℕ) → i ≢ j → Owns w p → ¬ Owns (ps j) p)
      → (a b p : ℕ) → Owns (at ps i w a) p
      → Owns (at ps i w b) p
      → a ≡ b
  sole-at old new a b p x y = elim (Bool-cases (i == a)) [
    | inl e ↦ elim (Bool-cases (i == b)) [
      | inl f ↦ ground (arith, ==_iff i a, ==_iff i b)
      | inr f ↦ absurd (new b p (λ q. ground (arith, ==_iff i b)) (rw e at x) (rw f at y))
    ]
    | inr e ↦ elim (Bool-cases (i == b)) [
      | inl f ↦ absurd (new a p (λ q. ground (arith, ==_iff i a)) (rw f at y) (rw e at x))
      | inr f ↦ old a b p (rw e at x) (rw f at y)
    ]
  ]

-- The consumer holds back at most the position that it is reading.
pub floor-le :
    (capacity : ℕ) (s : System) (c : Consumer)
    → Pops capacity s c
    → released c s.dequeue_pos ≤ s.dequeue_pos
floor-le capacity s resting h = omega arith
floor-le capacity s polling h = omega arith
floor-le capacity s (checking pos) h = omega arith
floor-le capacity s (taking pos) h = omega arith
floor-le capacity s (reading pos) h = omega arith
floor-le capacity s (releasing pos out) h = omega arith

pub first-at : (f : ℕ → ℕ) (n pos v : ℕ) → n ≤ pos → first (at f pos v) n ≡ first f n
first-at f zero pos v h = refl
first-at f (suc n) pos v h =
    ap₂ (λ xs x. xs ++ x ∷ []) (first-at f n pos v (omega arith)) (ground (arith, ==_iff pos n))

pub Owns-Claimed :
    (capacity : ℕ) (s : System) (w : Producer) (p : ℕ)
    → Pushes capacity s w
    → Owns w p
    → Claimed capacity s p
Owns-Claimed capacity s (writing value pos) p h o = rw o (h.0)
Owns-Claimed capacity s (publishing pos) p h o = rw o (h.0)
Owns-Claimed capacity s idle p h o = absurd o
Owns-Claimed capacity s (reloading value) p h o = absurd o
Owns-Claimed capacity s (pushing value pos) p h o = absurd o
Owns-Claimed capacity s (claiming value pos) p h o = absurd o
