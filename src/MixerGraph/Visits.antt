-- ===== src/MixerGraph/Visits.antt =====
-- One visit of the depth-first search: its marks, its stack and what it has emitted.
use onebeat.Prelude.{
  In, Distinct, ℕ, ◌<◌, ◌≡◌, List, [], ◌∷◌, some, ◌⊎◌, inl, inr, arith, length, set,
}
use onebeat.MixerGraph.{GraphNode, Mark, unvisited, active, finished, mark_at, Sort, target}
use onebeat.MixerGraph.Marks.{mark_at-set}
use onebeat.MixerGraph.Order.{Ordered, Feeds, direct, through}

module _ (nodes : List GraphNode) where
  -- The nodes below `x` on the stack: each is active and feeds the one above it.
  abbrev pub Trail : List Mark → ℕ → List ℕ → Type 0
  Trail st x [] = Unit
  Trail st x (y ∷ r) =
      (y < length nodes) × (target nodes y ≡ some x) × (mark_at st y ≡ active) × Trail st y r

  -- The top is new, or the node that it feeds is finished.
  abbrev pub Top : List Mark → ℕ → Type 0
  Top st x =
      (mark_at st x ≡ unvisited)
      ⊎ ((mark_at st x ≡ active) × ((o : ℕ) → target nodes x ≡ some o → mark_at st o ≡ finished))

  abbrev pub Waiting : List Mark → List ℕ → Type 0
  Waiting st [] = Unit
  Waiting st (x ∷ r) = (x < length nodes) × Top st x × Trail st x r

  pub record Inv (s : Sort) : Type 0 where
    pub size : length s.state ≡ length nodes
    pub waiting : Waiting s.state s.stack
    pub distinct : Distinct s.stack
    pub on_stack : (i : ℕ) → mark_at s.state i ≡ active → In i s.stack
    pub emitted : (i : ℕ) → mark_at s.state i ≡ finished → In i s.reverse
    pub done : (i : ℕ) → In i s.reverse → mark_at s.state i ≡ finished
    pub ordered : Ordered (target nodes) s.reverse

  pub Trail-set :
      (st : List Mark) (c : ℕ) (m : Mark) (x : ℕ) (r : List ℕ)
      → c < length st
      → ¬ In c r
      → Trail st x r
      → Trail (set st c m) x r
  Trail-set st c m x [] h n t = tt
  Trail-set st c m x (y ∷ r) h n t = (
    t.0,
    t.1,
    ground (arith, mark_at-set st c y m h, λ (e : c ≡ y). n (inl e)),
    Trail-set st c m y r h (λ i. n (inr i)) t.3,
  )

  pub Trail-active :
      (st : List Mark) (x : ℕ) (r : List ℕ) (i : ℕ) → Trail st x r → In i r → mark_at st i ≡ active
  Trail-active st x [] i t m = absurd m
  Trail-active st x (y ∷ r) i t m = elim m [
    | inl e ↦ rw e (t.2)
    | inr later ↦ Trail-active st y r i t.3 later
  ]

  pub Trail-Feeds :
      (st : List Mark) (x : ℕ) (r : List ℕ) (i : ℕ)
      → Trail st x r
      → In i r
      → Feeds (target nodes) i x
  Trail-Feeds st x [] i t m = absurd m
  Trail-Feeds st x (y ∷ r) i t m = elim m [
    | inl e ↦ direct (rw e (t.1))
    | inr later ↦ through (Trail-Feeds st y r i t.3 later) t.1
  ]
