-- ===== src/MixerGraph/Search.antt =====
-- The loops of `finalise`: their fuel, and how they end.
use onebeat.Prelude.{
  In, ℕ, ◌+◌, ◌<◌, ◌≡◌, List, ◌∷◌, some, ◌⊎◌, inl, inr, ◌==◌, Option-cases, arith, if◌then◌else◌,
  length, set,
}
use onebeat.MixerGraph.{
  GraphNode, Mark, unvisited, active, finished, mark_at, Sort, target, Visit, again, back_edge,
  follow, visit, Outcome, sorted, cycle, out_of_fuel,
}
use onebeat.MixerGraph.Marks.{mark_at-set, work, work-enter, work-leave, Mark-cases}
use onebeat.MixerGraph.Order.{Feeds}
use onebeat.MixerGraph.Visits.{Inv}
use onebeat.MixerGraph.Steps.{left, entered, leave-Inv, enter-Inv, follow-Inv, back_edge-Feeds}

abbrev pub measure : Sort → ℕ
measure s = work s.state + length s.stack

-- What has been finished stays finished, and what was on the stack is still there or finished.
pub record Later (s t : Sort) : Type 0 where
  pub keeps : (i : ℕ) → mark_at s.state i ≡ finished → mark_at t.state i ≡ finished
  pub serves : (i : ℕ) → In i s.stack → In i t.stack ⊎ (mark_at t.state i ≡ finished)

pub Later-trans : {s t u : Sort} → Later s t → Later t u → Later s u
Later-trans a b = record {
  keeps = λ i m. b.keeps i (a.keeps i m);
  serves = λ i m. elim (a.serves i m) [ inl on ↦ b.serves i on | inr d ↦ inr (b.keeps i d) ];
}

module _ (nodes : List GraphNode) where
  -- Some node is fed by itself.
  abbrev pub Cyclic : Type 0
  Cyclic = (i : ℕ) × Feeds (target nodes) i i

  abbrev pub Ends : (Sort → Type 0) → Outcome → Type 0
  Ends P (sorted s) = P s
  Ends P cycle = Cyclic
  Ends P out_of_fuel = ⊥

  -- a visit from `s`
  abbrev pub Visited : Sort → Visit → Type 0
  Visited s (again t) = Inv nodes t × (measure t < measure s) × Later s t
  Visited s back_edge = Cyclic

  pub target-lt : (i o : ℕ) → target nodes i ≡ some o → o < length nodes
  unfolding target
  target-lt i o e = ground arith

  module _ (st : List Mark) (x : ℕ) (r out : List ℕ) where
    abbrev pub here : Sort
    here = record { state = st; stack = x ∷ r; reverse = out }

    module _ (inv : Inv nodes here) where
      below : x < length st
      below = omega (arith, inv.size, inv.waiting.0)

      after : (m : Mark) (j : ℕ) → mark_at (set st x m) j ≡ (if x == j then m else mark_at st j)
      after m j = mark_at-set st x j m below

      leave-Visited : mark_at st x ≡ active → Visited here (again (left nodes st x r out))
      leave-Visited a = (
        leave-Inv nodes st x r out inv a,
        omega (arith, work-leave st x below a),
        record {
          keeps = λ i m. ground (arith, after finished i);
          serves = λ i m. ground (arith, after finished i);
        },
      )

      enter-Visited :
          mark_at st x ≡ unvisited
          → Visited here (follow (entered nodes st x r out) (target nodes x))
      enter-Visited new = elim (Option-cases (target nodes x)) [
        | inl e ↦ rw e (
          enter-Inv nodes st x r out inv new (λ o p. ground (arith)),
          less,
          later (x ∷ r) (λ i m. m),
        )
        | inr (o, e) ↦ rw e (elim (Mark-cases (mark_at (set st x active) o)) [
          | inl fresh ↦ rw fresh (
            follow-Inv nodes st x r out inv new o (target-lt x o e) e fresh,
            omega (arith, work-enter st x below new),
            later (o ∷ x ∷ r) (λ i m. inr m),
          )
          | inr (inl on) ↦ rw on (o, back_edge-Feeds nodes st x r out inv new o e on)
          | inr (inr past) ↦ rw past (
            enter-Inv nodes st x r out inv new (λ o' p. ground (arith, past, e, p)),
            less,
            later (x ∷ r) (λ i m. m),
          )
        ])
      ]
        where
          less : measure (entered nodes st x r out) < measure here
          less = omega (arith, work-enter st x below new)

          later :
              (stack : List ℕ)
              → ((i : ℕ) → In i (x ∷ r) → In i stack)
              → Later here (record { state = set st x active; stack = stack; reverse = out })
          later stack sub = record {
            keeps = λ i m. ground (arith, after active i);
            serves = λ i m. inl (sub i m);
          }

      pub visit-Visited : Visited here (visit nodes x r here (mark_at st x))
      unfolding visit
      visit-Visited = elim (Mark-cases (mark_at st x)) [
        | inl new ↦ rw new (enter-Visited new)
        | inr (inl a) ↦ rw a (leave-Visited a)
        | inr (inr d) ↦
            absurd (elim (inv.waiting.1) [ inl new ↦ ground arith | inr old ↦ ground arith ])
      ]
