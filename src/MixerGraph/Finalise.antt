-- ===== src/MixerGraph/Finalise.antt =====
-- `finalise` of engine/src/core/mixer_graph.cpp as a whole: its answer and its order.
use onebeat.Prelude.{
  In, ℕ, zero, suc, ◌+◌, ◌≤◌, ◌<◌, ◌≡◌, refl, sym, ap, subst, ◌∙◌, Bool, true, false, List, [], ◌∷◌,
  some, ◌⊎◌, ◌↔◌, inl, inr, arith, length, if◌then◌else◌, Bool-cases,
}
use onebeat.Prelude.Int.{ℤ, pos, negsuc}
use native.Mathlib.Decide.{dec_lt}
use onebeat.MixerGraph.{
  GraphNode, MixerGraph, is_negative, survey, output_at, has_master, Sort, target, Outcome, sorted,
  cycle, out_of_fuel, topological, conclude, finalise,
}
use onebeat.MixerGraph.Marks.{marked-lt}
use onebeat.MixerGraph.Order.{Ordered, Feeds, Ordered-acyclic}
use onebeat.MixerGraph.Search.{Cyclic, Ends}
use onebeat.MixerGraph.Sorted.{Between, topological-Ends}

-- The node is a master, and no later one is.
abbrev pub IsLastMaster : List GraphNode → ℕ → Type 0
IsLastMaster nodes k =
    (k < length nodes)
    × (is_negative (output_at nodes k) ≡ true)
    × ((j : ℕ) → k < j → j < length nodes → is_negative (output_at nodes j) ≡ false)

abbrev NoMaster : List GraphNode → Type 0
NoMaster nodes = (j : ℕ) → j < length nodes → is_negative (output_at nodes j) ≡ false

survey-master :
    (nodes : List GraphNode) (i : ℕ) (m : ℤ) (e : ℕ)
    → (NoMaster nodes × ((survey i nodes (m, e)).0 ≡ m))
      ⊎ ((k : ℕ) × ((survey i nodes (m, e)).0 ≡ pos (i + k)) × IsLastMaster nodes k)
unfolding survey
survey-master [] i m e = inl (λ j h. absurd (omega arith), refl)
survey-master (node ∷ rest) i m e =
    elim (survey-master rest (i + 1) (if is_negative node.output then pos i else m)
      (e + length node.effects)) [
        | inr (k, q, last) ↦
            inr (suc k, rw q (ap pos (omega arith)), (omega arith, last.1, shifted k last.2))
        | inl (absent, q) ↦ elim (Bool-cases (is_negative node.output)) [
          | inl neg ↦
              inr (0, ground (arith, q, neg), (omega arith, neg, λ j a b. later absent j a b))
          | inr not_neg ↦ inl (first absent not_neg, ground (arith, q, not_neg))
        ]
      ]
  where
    shifted :
        (k : ℕ)
        → ((j : ℕ) → k < j → j < length rest → is_negative (output_at rest j) ≡ false)
        → (j : ℕ) → suc k < j
        → j < suc (length rest)
        → is_negative (output_at (node ∷ rest) j) ≡ false
    shifted k h zero a b = absurd (omega arith)
    shifted k h (suc j) a b = h j (omega arith) (omega arith)

    later :
        NoMaster rest
        → (j : ℕ) → 0 < j
        → j < suc (length rest)
        → is_negative (output_at (node ∷ rest) j) ≡ false
    later h zero a b = absurd (omega arith)
    later h (suc j) a b = h j (omega arith)

    first : NoMaster rest → is_negative node.output ≡ false → NoMaster (node ∷ rest)
    first h e zero b = e
    first h e (suc j) b = h j (omega arith)

-- Every node once, each before the node that it feeds.
pub record IsRenderOrder (nodes : List GraphNode) (order : List ℕ) : Type 0 where
  pub ordered : Ordered (target nodes) order
  pub complete : (i : ℕ) → (i < length nodes) ↔ In i order

Between-IsRenderOrder :
    (nodes : List GraphNode) (s : Sort)
    → Between nodes (length nodes) s
    → IsRenderOrder nodes s.reverse
Between-IsRenderOrder nodes s b = record {
  ordered = b.inv.ordered;
  complete = λ i. (
    λ h. b.inv.emitted i (b.past i h),
    λ m. omega (arith, b.inv.size, marked-lt s.state i (ground (arith, b.inv.done i m))),
  );
}

target-lt-source : (nodes : List GraphNode) (i o : ℕ) → target nodes i ≡ some o → i < length nodes
unfolding target
target-lt-source nodes i o e = elim (dec_lt i (length nodes)) [
  | yes p ↦ p
  | no p ↦ absurd (ground (arith, missing nodes i))
]
  where
    missing : (nodes : List GraphNode) (i : ℕ) → length nodes ≤ i → output_at nodes i ≡ negsuc 0
    missing [] i h = refl
    missing (n ∷ ns) zero h = absurd (omega arith)
    missing (n ∷ ns) (suc i) h = missing ns i (omega arith)

Feeds-lt : (nodes : List GraphNode) (i : ℕ) {j : ℕ} → Feeds (target nodes) i j → i < length nodes
Feeds-lt nodes i (Feeds.direct e) = target-lt-source nodes i _ e
Feeds-lt nodes i (Feeds.through f e) = Feeds-lt nodes i f

-- A render order shows that nothing feeds back.
IsRenderOrder-acyclic :
    (nodes : List GraphNode) (order : List ℕ) → IsRenderOrder nodes order → ¬ Cyclic nodes
IsRenderOrder-acyclic nodes order r (i, f) =
    Ordered-acyclic (target nodes) order i r.ordered ((r.complete i).0 (Feeds-lt nodes i f)) f

-- What the search makes of the graph: feedback was found, or an order.
abbrev Verdict : MixerGraph → MixerGraph × Bool → Type 0
Verdict g (h, ok) =
    (h.nodes ≡ g.nodes)
    × (h.master ≡ (survey 0 g.nodes (negsuc 0, 0)).0)
    × ((Cyclic g.nodes × (ok ≡ false))
        ⊎ (IsRenderOrder g.nodes h.order × (ok ≡ has_master h.master)))

conclude-Verdict :
    (g : MixerGraph) (order : List ℕ) (effects : ℕ) (o : Outcome)
    → Ends g.nodes (Between g.nodes (length g.nodes)) o
    → let h = record g {
      order = order;
      master = (survey 0 g.nodes (negsuc 0, 0)).0;
      effect_count = effects;
    } in
      (r : MixerGraph × Bool) × (conclude h o ≡ some r) × Verdict g r
conclude-Verdict g order effects (sorted s) b =
    (_, refl, (refl, refl, inr (Between-IsRenderOrder g.nodes s b, refl)))
conclude-Verdict g order effects cycle c = (_, refl, (refl, refl, inl (c, refl)))
conclude-Verdict g order effects out_of_fuel h = absurd h

finalise-Verdict : (g : MixerGraph) → (r : MixerGraph × Bool) × (finalise g ≡ some r) × Verdict g r
unfolding finalise
finalise-Verdict g =
    conclude-Verdict g [] (survey 0 g.nodes (negsuc 0, 0)).1 (topological g.nodes)
      (topological-Ends g.nodes)

Verdict-of_eq : (g : MixerGraph) {r : MixerGraph × Bool} → finalise g ≡ some r → Verdict g r
Verdict-of_eq g e = let (r, q, v) = finalise-Verdict g in subst (Verdict g) (some-inj (sym q ∙ e)) v
  where
    some-inj : {a b : MixerGraph × Bool} → some a ≡ some b → a ≡ b
    some-inj e = cc

-- The loops of `finalise` end, whatever the routing: the stack of the search is emptied within three
-- rounds of a while loop for each node.
pub finalise_terminates : (g : MixerGraph) → (r : MixerGraph × Bool) × (finalise g ≡ some r)
finalise_terminates g = let (r, q, v) = finalise-Verdict g in (r, q)

-- A graph that `finalise` accepts has kept its nodes, its order lists each of them once, each before
-- the node that it feeds, and its master is the last node with no output.
pub finalise-IsRenderOrder :
    (g : MixerGraph) {h : MixerGraph}
    → finalise g ≡ some (h, true)
    → (h.nodes ≡ g.nodes)
      × IsRenderOrder g.nodes h.order
      × ((k : ℕ) × (h.master ≡ pos k) × IsLastMaster g.nodes k)
finalise-IsRenderOrder g {h} e = elim (v.2) [
  | inl refused ↦ absurd (cc)
  | inr (order, ok) ↦ (v.0, order, found ok)
]
  where
    v : Verdict g (h, true)
    v = Verdict-of_eq g e

    found : true ≡ has_master h.master → (k : ℕ) × (h.master ≡ pos k) × IsLastMaster g.nodes k
    found ok = elim (survey-master g.nodes 0 (negsuc 0) 0) [
      | inl (absent, q) ↦ absurd (ground (arith, v.1, q, ok))
      | inr (k, q, last) ↦ (k, v.1 ∙ q ∙ ap pos (omega arith), last)
    ]

-- What `finalise` returns: it is true exactly when no node's signal comes back to it and some node is
-- a master.
pub finalise-eq-true :
    (g : MixerGraph) {h : MixerGraph} {ok : Bool}
    → finalise g ≡ some (h, ok)
    → (ok ≡ true) ↔ (¬ Cyclic g.nodes × ((k : ℕ) × IsLastMaster g.nodes k))
finalise-eq-true g {h} {ok} e = (
  λ t.
      let (kept, order, (k, m, last)) =
        finalise-IsRenderOrder g (subst (λ b. finalise g ≡ some (h, b)) t e) in
      (IsRenderOrder-acyclic g.nodes h.order order, (k, last)),
  λ (acyclic, (k, last)). elim (v.2) [
    | inl (c, r) ↦ absurd (acyclic c)
    | inr (order, r) ↦ elim (survey-master g.nodes 0 (negsuc 0) 0) [
      | inl (absent, q) ↦ absurd (ground (arith, absent k, last))
      | inr (j, q, found) ↦ r ∙ ground (arith, v.1, q)
    ]
  ],
)
  where
    v : Verdict g (h, ok)
    v = Verdict-of_eq g e
