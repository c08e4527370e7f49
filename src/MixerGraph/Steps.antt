-- ===== src/MixerGraph/Steps.antt =====
-- The invariant of the search where a finished node is left and a new one entered.
use onebeat.Prelude.{
  In, ℕ, ◌<◌, ◌≡◌, sym, subst, List, [], ◌∷◌, some, ◌⊎◌, inl, inr, ◌==◌, arith, if◌then◌else◌,
  length, set,
}
use onebeat.MixerGraph.{GraphNode, Mark, unvisited, active, finished, mark_at, Sort, target}
use onebeat.MixerGraph.Marks.{mark_at-set, length-set}
use onebeat.MixerGraph.Order.{Feeds, direct, through}
use onebeat.MixerGraph.Visits.{Trail, Waiting, Inv, Trail-set, Trail-active, Trail-Feeds}

module _ (nodes : List GraphNode) (st : List Mark) (x : ℕ) (r out : List ℕ) where
  abbrev at_top : Sort
  at_top = record { state = st; stack = x ∷ r; reverse = out }

  abbrev pub left : Sort
  left = record { state = set st x finished; stack = r; reverse = x ∷ out }

  abbrev pub entered : Sort
  entered = record { state = set st x active; stack = x ∷ r; reverse = out }

  module _ (inv : Inv nodes at_top) where
    inside : x < length st
    inside = omega (arith, inv.size, inv.waiting.0)

    after : (m : Mark) (j : ℕ) → mark_at (set st x m) j ≡ (if x == j then m else mark_at st j)
    after m j = mark_at-set st x j m inside

    leave-ready :
        (o : ℕ) → mark_at st x ≡ active → target nodes x ≡ some o → mark_at st o ≡ finished
    leave-ready o a e = elim (inv.waiting.1) [
      | inl new ↦ absurd (ground arith)
      | inr old ↦ old.1 o e
    ]

    -- the node that waits for `x` is next
    leave-Waiting :
        (r' : List ℕ) → ¬ In x r' → Trail nodes st x r' → Waiting nodes (set st x finished) r'
    leave-Waiting [] fresh t = tt
    leave-Waiting (y ∷ r') fresh t = (
      t.0,
      inr (
        ground (arith, after finished y, λ (p : x ≡ y). fresh (inl p)),
        λ o p. ground (arith, t.1, after finished o),
      ),
      Trail-set nodes st x finished y r' inside (λ i. fresh (inr i)) t.3,
    )

    pub leave-Inv : mark_at st x ≡ active → Inv nodes left
    leave-Inv a = record {
      size = omega (arith, inv.size, length-set st x finished);
      waiting = leave-Waiting r inv.distinct.0 inv.waiting.2;
      distinct = inv.distinct.1;
      on_stack = λ i m. ground (arith, after finished i, inv.on_stack i);
      emitted = λ i m. ground (arith, after finished i, inv.emitted i);
      done = λ i m. ground (arith, after finished i, inv.done i);
      ordered = (
        λ o e. inv.emitted o (leave-ready o a e),
        λ m. ground (arith, inv.done x m),
        inv.ordered,
      );
    }

    module _ (new : mark_at st x ≡ unvisited) where
      enter-Trail : Trail nodes (set st x active) x r
      enter-Trail = Trail-set nodes st x active x r inside inv.distinct.0 inv.waiting.2

      -- with its output, if it leads to a node, already finished
      pub enter-Inv :
          ((o : ℕ) → target nodes x ≡ some o → mark_at (set st x active) o ≡ finished)
          → Inv nodes entered
      enter-Inv ready = record {
        size = omega (arith, inv.size, length-set st x active);
        waiting = (inv.waiting.0, inr (ground (arith, after active x), ready), enter-Trail);
        distinct = inv.distinct;
        on_stack = λ i m. ground (arith, after active i, inv.on_stack i);
        emitted = λ i m. ground (arith, after active i, inv.emitted i);
        done = λ i m. ground (arith, after active i, inv.done i);
        ordered = inv.ordered;
      }

      entered-active : (i : ℕ) → In i (x ∷ r) → mark_at (set st x active) i ≡ active
      entered-active i m = elim m [
        | inl e ↦ ground (arith, after active i)
        | inr below ↦ Trail-active nodes (set st x active) x r i enter-Trail below
      ]

      -- with its output, a new node, on top
      pub follow-Inv :
          (o : ℕ)
          → o < length nodes
          → target nodes x ≡ some o
          → mark_at (set st x active) o ≡ unvisited
          → Inv nodes (record entered { stack = o ∷ x ∷ r })
      follow-Inv o h e m = record {
        size = omega (arith, inv.size, length-set st x active);
        waiting = (h, inl m, (inv.waiting.0, e, ground (arith, after active x), enter-Trail));
        distinct = (λ i. ground (arith, entered-active o i), inv.distinct);
        on_stack = λ i a. ground (arith, after active i, inv.on_stack i);
        emitted = λ i a. ground (arith, after active i, inv.emitted i);
        done = λ i a. ground (arith, after active i, inv.done i);
        ordered = inv.ordered;
      }

      -- an output that is active has led here
      pub back_edge-Feeds :
          (o : ℕ)
          → target nodes x ≡ some o
          → mark_at (set st x active) o ≡ active
          → Feeds (target nodes) o o
      back_edge-Feeds o e m = elim (on_stack) [
        | inl here ↦ direct (subst (λ k. target nodes k ≡ some o) (sym here) e)
        | inr below ↦ through (Trail-Feeds nodes st x r o inv.waiting.2 below) e
      ]
        where
          on_stack : (o ≡ x) ⊎ In o r
          on_stack = ground (arith, after active o, inv.on_stack o)
