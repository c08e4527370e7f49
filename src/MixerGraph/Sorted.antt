-- ===== src/MixerGraph/Sorted.antt =====
-- The search of `finalise` as a whole.
use onebeat.Prelude.{
  In, ℕ, zero, suc, ◌+◌, ◌≤◌, ◌<◌, ◌≡◌, refl, subst, List, [], ◌∷◌, inl, inr, arith, length,
}
use native.Mathlib.Decide.{dec_lt}
use onebeat.MixerGraph.{
  GraphNode, Mark, unvisited, finished, mark_at, Sort, Visit, again, back_edge, visit, Outcome,
  sorted, cycle, out_of_fuel, drain, starts, fuel, push, blank, topological,
}
use onebeat.MixerGraph.Marks.{work-le, Mark-cases, mark_at-blank, length-blank}
use onebeat.MixerGraph.Visits.{Inv}
use onebeat.MixerGraph.Search.{measure, Later, Later-trans, Ends, Visited, here, visit-Visited}

abbrev search : List Mark → List ℕ → List ℕ → Sort
search st stack out = record { state = st; stack = stack; reverse = out }

module _ (nodes : List GraphNode) where
  -- what a while loop from `s` leaves
  abbrev Drained : Sort → Sort → Type 0
  Drained s t = Inv nodes t × (t.stack ≡ []) × Later s t

  Drained-Later :
      {s t : Sort} → Later s t → (o : Outcome) → Ends nodes (Drained t) o → Ends nodes (Drained s) o
  Drained-Later l (sorted u) d = (d.0, d.1, Later-trans l d.2)
  Drained-Later l cycle c = c
  Drained-Later l out_of_fuel h = h

  resume :
      (rounds : ℕ) (s : Sort)
      → ((t : Sort)
          → Inv nodes t
          → measure t ≤ rounds
          → Ends nodes (Drained t) (drain nodes rounds t))
      → (v : Visit) → measure s ≤ suc rounds
      → Visited nodes s v
      → Ends nodes (Drained s) (elim v [ again t ↦ drain nodes rounds t | back_edge ↦ cycle ])
  resume rounds s next (again t) h v =
      Drained-Later v.2 (drain nodes rounds t) (next t v.0 (omega arith))
  resume rounds s next back_edge h v = v

  drain-Ends :
      (rounds : ℕ) (st : List Mark) (stack out : List ℕ)
      → Inv nodes (search st stack out)
      → measure (search st stack out) ≤ rounds
      → Ends nodes (Drained (search st stack out)) (drain nodes rounds (search st stack out))
  unfolding drain
  drain-Ends zero st [] out inv h = (inv, refl, record { keeps = λ i m. m; serves = λ i m. inl m })
  drain-Ends zero st (x ∷ r) out inv h = absurd (omega arith)
  drain-Ends (suc rounds) st [] out inv h =
      (inv, refl, record { keeps = λ i m. m; serves = λ i m. inl m })
  drain-Ends (suc rounds) st (x ∷ r) out inv h =
      resume rounds (here nodes st x r out)
        (λ t i m. drain-Ends rounds t.state t.stack t.reverse i m)
        (visit nodes x r (here nodes st x r out) (mark_at st x)) h
        (visit-Visited nodes st x r out inv)

  -- between two starts: every node before `start` is finished
  pub record Between (start : ℕ) (s : Sort) : Type 0 where
    pub inv : Inv nodes s
    pub empty : s.stack ≡ []
    pub past : (i : ℕ) → i < start → mark_at s.state i ≡ finished

  module _ (start : ℕ) (st : List Mark) (out : List ℕ) (h : start < length nodes) where
    abbrev from : Sort
    from = search st [] out

    push-Inv : Inv nodes from → mark_at st start ≡ unvisited → Inv nodes (push nodes start from)
    push-Inv inv new = record {
      size = inv.size;
      waiting = (h, inl new, tt);
      distinct = (λ m. m, tt);
      on_stack = λ i a. inr (inv.on_stack i a);
      emitted = inv.emitted;
      done = inv.done;
      ordered = inv.ordered;
    }

    drained_lem :
        (t : Sort) → Between start from → Drained (push nodes start from) t → Between (start + 1) t
    drained_lem t b d = record {
      inv = d.0;
      empty = d.1;
      past = λ i p. elim (dec_lt i start) [
        | yes old ↦ d.2.keeps i (b.past i old)
        | no last ↦ served i (omega arith)
      ];
    }
      where
        served : (i : ℕ) → i ≡ start → mark_at t.state i ≡ finished
        served i e = elim (d.2.serves i (inl e)) [
          | inl on ↦ absurd (subst (In i) (d.1) on)
          | inr past ↦ past
        ]

    skip-Between : Between start from → mark_at st start ≡ finished → Between (start + 1) from
    skip-Between b m = record {
      inv = b.inv;
      empty = refl;
      past = λ i p. elim (dec_lt i start) [
        | yes old ↦ b.past i old
        | no last ↦ let e : i ≡ start = omega arith in rw e m
      ];
    }

    start-Ends :
        Between start from
        → mark_at st start ≡ unvisited
        → Ends nodes (Between (start + 1)) (drain nodes (fuel nodes) (push nodes start from))
    start-Ends b new = close (drain nodes (fuel nodes) (push nodes start from)) (
        drain-Ends (fuel nodes) st (start ∷ []) out (push-Inv b.inv new)
          (omega (arith, work-le st, b.inv.size)))
      where
        close :
            (o : Outcome)
            → Ends nodes (Drained (push nodes start from)) o
            → Ends nodes (Between (start + 1)) o
        close (sorted t) d = drained_lem t b d
        close cycle c = c
        close out_of_fuel h = h

  starts-Ends :
      (rounds start : ℕ) (st : List Mark) (stack out : List ℕ)
      → stack ≡ []
      → start + rounds ≡ length nodes
      → Between start (search st stack out)
      → Ends nodes (Between (length nodes)) (starts nodes rounds start (search st stack out))
  unfolding starts
  starts-Ends zero start st stack out e h b =
      let q : start ≡ length nodes = omega arith in subst (λ k. Between k (search st stack out)) q b
  starts-Ends (suc rounds) start st (x ∷ r) out e h b = absurd (cc)
  starts-Ends (suc rounds) start st [] out e h b = elim (Mark-cases (mark_at st start)) [
    | inl new ↦ rw new (
        go (drain nodes (fuel nodes) (push nodes start (search st [] out)))
          (start-Ends start st out (omega arith) b new)
          (λ t d. starts-Ends rounds (start + 1) t.state t.stack t.reverse d.empty (omega arith) d))
    | inr (inl a) ↦ absurd (b.inv.on_stack start a)
    | inr (inr past) ↦ rw past (
        starts-Ends rounds (start + 1) st [] out refl (omega arith)
          (skip-Between start st out (omega arith) b past))
  ]
    where
      go :
          (o : Outcome)
          → Ends nodes (Between (start + 1)) o
          → ((t : Sort)
              → Between (start + 1) t
              → Ends nodes (Between (length nodes)) (starts nodes rounds (start + 1) t))
          → Ends nodes (Between (length nodes)) (elim o [
            | sorted t ↦ starts nodes rounds (start + 1) t
            | cycle ↦ cycle
            | out_of_fuel ↦ out_of_fuel
          ])
      go (sorted t) b k = k t b
      go cycle c k = c
      go out_of_fuel c k = c

  pub topological-Ends : Ends nodes (Between (length nodes)) (topological nodes)
  unfolding topological
  topological-Ends = starts-Ends (length nodes) 0 (blank nodes) [] [] refl (omega arith) (record {
    inv = record {
      size = length-blank nodes;
      waiting = tt;
      distinct = tt;
      on_stack = λ i m. ground (arith, mark_at-blank nodes i);
      emitted = λ i m. ground (arith, mark_at-blank nodes i);
      done = λ i m. absurd m;
      ordered = tt;
    };
    empty = refl;
    past = λ i h. absurd (omega arith);
  })
