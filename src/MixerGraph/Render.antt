-- ===== src/MixerGraph/Render.antt =====
-- How the audio thread walks the graph: Engine::renderMixer in engine/src/core/engine.cpp. The audio of
-- a bus over one chunk is a type of its own; what the inserts of a node make of it, how two signals
-- are summed and how a level scales one are parameters, since they are plugins and floats.
use onebeat.Prelude.{
  In, ℕ, ◌<◌, ◌≡◌, refl, sym, ap, subst, ◌∙◌, Bool, true, false, not, ◌&&◌, List, [], ◌∷◌, some,
  inl, inr, ◌==◌, ==_iff, Bool-cases, lt→ltb, arith, length, if◌then◌else◌,
}
use onebeat.Prelude.Int.{ℤ, pos, negsuc}
use onebeat.MixerGraph.{
  GraphNode, MixerGraph, has_master, finalise, is_negative, output_at, route, target,
}
use onebeat.MixerGraph.Finalise.{IsRenderOrder, finalise-IsRenderOrder}
use onebeat.MixerGraph.Order.{Ordered, Ordered-closed}

pub record Sound (A : Type 0) : Type 0 where
  pub add : A → A → A
  -- the inserts of a node, in place
  pub process : ℕ → A → A
  -- the level and the pan of a node, and whether its gain is 0
  pub scaled : ℕ → A → A
  pub silent : ℕ → Bool

pub record Planes (A : Type 0) : Type 0 where
  pub bus : ℕ → A
  pub device : A

-- A write to a bus.
abbrev pub at_bus : {A : Type 0} → (ℕ → A) → ℕ → A → ℕ → A
at_bus f i a j = if i == j then a else f j

abbrev pub leads_to : ℤ → ℕ → Bool
leads_to (pos o) i = o == i
leads_to (negsuc n) i = false

module _ {A : Type 0} (sound : Sound A) (nodes : List GraphNode) where
  open sound use {add, process, scaled, silent}

  abbrev pub send : Planes A → A → ℤ → Planes A
  send p signal (negsuc n) = record p { device = add p.device signal }
  send p signal (pos o) = record p { bus = at_bus p.bus o (add (p.bus o) signal) }

  -- The body of the loop over the order.
  unfoldable pub render_node : Planes A → ℕ → Planes A
  render_node p index =
      let wet = process index (p.bus index) in
      let q = record p { bus = at_bus p.bus index wet } in
      if silent index then q else send q (scaled index wet) (output_at nodes index)

  unfoldable pub render_order : List ℕ → Planes A → Planes A
  render_order [] p = p
  render_order (index ∷ rest) p = render_order rest (render_node p index)

  -- What starts at `a`, with the signals of those nodes, in order, that are heard there.
  abbrev pub mixed : (ℕ → A) → (ℕ → Bool) → List ℕ → A → A
  mixed wet heard [] a = a
  mixed wet heard (j ∷ js) a =
      mixed wet heard js (if not (silent j) && heard j then add a (scaled j (wet j)) else a)

  abbrev pub feeds : ℕ → ℕ → Bool
  feeds i j = leads_to (output_at nodes j) i

  abbrev pub feeds_device : ℕ → Bool
  feeds_device j = is_negative (output_at nodes j)

  leads_to-target :
      (j i : ℕ) → i < length nodes → leads_to (output_at nodes j) i ≡ true → target nodes j ≡ some i
  unfolding target
  leads_to-target j i h e = reach (output_at nodes j) e
    where
      reach : (z : ℤ) → leads_to z i ≡ true → route (length nodes) z ≡ some i
      reach (pos o) e = ground (arith, ==_iff o i, lt→ltb o (length nodes))
      reach (negsuc n) e = absurd (cc)

  -- in a render order nothing from `x` on feeds `x`
  not_fed :
      (x : ℕ) (r : List ℕ) (j : ℕ)
      → x < length nodes
      → Ordered (target nodes) (x ∷ r)
      → In j (x ∷ r)
      → feeds x j ≡ false
  not_fed x r j h s m = elim (Bool-cases (leads_to (output_at nodes j) x)) [
    | inr no_edge ↦ no_edge
    | inl edge ↦ absurd (
        s.1 (elim m [
          | inl e ↦
              s.0 x
                (leads_to-target x x h (subst (λ k. leads_to (output_at nodes k) x ≡ true) e edge))
          | inr later ↦ Ordered-closed (target nodes) r j x s.2 later (leads_to-target j x h edge)
        ]))
  ]

  render_node-other :
      (p : Planes A) (x i : ℕ)
      → ¬ (i ≡ x)
      → (render_node p x).bus i ≡ (
          if not (silent x) && leads_to (output_at nodes x) i
          then add (p.bus i) (scaled x (process x (p.bus x)))
          else p.bus i)
  unfolding render_node
  render_node-other p x i n = go (output_at nodes x)
    where
      go :
          (z : ℤ)
          → (if silent x
                then record p { bus = at_bus p.bus x (process x (p.bus x)) }
                else send
                    (record p { bus = at_bus p.bus x (process x (p.bus x)) })
                    (scaled x (process x (p.bus x)))
                    z).bus
              i
            ≡ (if not (silent x) && leads_to z i
                then add (p.bus i) (scaled x (process x (p.bus x)))
                else p.bus i)
      go (pos o) = ground (arith, ==_iff x i, ==_iff o i)
      go (negsuc k) = ground (arith, ==_iff x i)

  render_node_self :
      (p : Planes A) (x : ℕ)
      → leads_to (output_at nodes x) x ≡ false
      → (render_node p x).bus x ≡ process x (p.bus x)
  unfolding render_node
  render_node_self p x = go (output_at nodes x)
    where
      go :
          (z : ℤ)
          → leads_to z x ≡ false
          → (if silent x
                then record p { bus = at_bus p.bus x (process x (p.bus x)) }
                else send
                    (record p { bus = at_bus p.bus x (process x (p.bus x)) })
                    (scaled x (process x (p.bus x)))
                    z).bus
              x
            ≡ process x (p.bus x)
      go (pos o) h = ground (arith, ==_iff x x, ==_iff o x)
      go (negsuc k) h = ground (arith, ==_iff x x)

  abbrev Unfed : ℕ → List ℕ → Type 0
  Unfed i xs = (j : ℕ) → In j xs → feeds i j ≡ false

  mixed-Unfed :
      (wet : ℕ → A) (i : ℕ) (xs : List ℕ) (a : A) → Unfed i xs → mixed wet (feeds i) xs a ≡ a
  mixed-Unfed wet i [] a u = refl
  mixed-Unfed wet i (j ∷ js) a u =
      let rest = mixed-Unfed wet i js a (λ k m. u k (inr m)) in ground (arith, u j (inl refl), rest)

  bus-render_order-Unfed :
      (xs : List ℕ) (p : Planes A) (i : ℕ)
      → ¬ In i xs
      → Unfed i xs
      → (render_order xs p).bus i ≡ p.bus i
  unfolding render_order
  bus-render_order-Unfed [] p i n u = refl
  bus-render_order-Unfed (x ∷ xs) p i n u =
      bus-render_order-Unfed xs (render_node p x) i (λ m. n (inr m)) (λ j m. u j (inr m))
      ∙ ground (arith, render_node-other p x i (λ e. n (inl e)), u x (inl refl))

  render_node-device :
      (p : Planes A) (x : ℕ)
      → (render_node p x).device ≡ (
          if not (silent x) && feeds_device x
          then add p.device (scaled x (process x (p.bus x)))
          else p.device)
  unfolding render_node
  render_node-device p x = go (output_at nodes x)
    where
      go :
          (z : ℤ)
          → (if silent x
              then record p { bus = at_bus p.bus x (process x (p.bus x)) }
              else send
                  (record p { bus = at_bus p.bus x (process x (p.bus x)) })
                  (scaled x (process x (p.bus x)))
                  z).device
            ≡ (if not (silent x) && is_negative z
                then add p.device (scaled x (process x (p.bus x)))
                else p.device)
      go (pos o) = ground arith
      go (negsuc k) = ground arith

  module _ (x : ℕ) (xs : List ℕ) (p : Planes A) (s : Ordered (target nodes) (x ∷ xs))
      (h : x < length nodes) where
    abbrev final : Planes A
    final = render_order xs (render_node p x)

    -- once rendered, a bus is not written again
    bus-at_top : final.bus x ≡ process x (p.bus x)
    bus-at_top =
        bus-render_order-Unfed xs (render_node p x) x s.1 (λ j m. not_fed x xs j h s (inr m))
        ∙ render_node_self p x (not_fed x xs x h s (inl refl))

    bus-top : final.bus x ≡ process x (mixed final.bus (feeds x) (x ∷ xs) (p.bus x))
    bus-top =
        bus-at_top
        ∙ ap (process x)
            (sym (mixed-Unfed final.bus x (x ∷ xs) (p.bus x) (λ j m. not_fed x xs j h s m)))

    heard-top :
        (a : A) (heard : Bool)
        → (if not (silent x) && heard then add a (scaled x (process x (p.bus x))) else a)
          ≡ (if not (silent x) && heard then add a (scaled x (final.bus x)) else a)
    heard-top a heard = rw bus-at_top refl

  -- What is on a bus when its node has been rendered.
  bus-render_order_from :
      (xs : List ℕ) (p : Planes A) (i : ℕ)
      → Ordered (target nodes) xs
      → ((j : ℕ) → In j xs → j < length nodes)
      → In i xs
      → (render_order xs p).bus i ≡ process i (mixed (render_order xs p).bus (feeds i) xs (p.bus i))
  unfolding render_order
  bus-render_order_from [] p i s h m = absurd m
  bus-render_order_from (x ∷ xs) p i s h m = elim m [
    | inl e ↦
        subst (λ k. all.bus k ≡ process k (mixed all.bus (feeds k) (x ∷ xs) (p.bus k))) (sym e)
          (bus-top x xs p s (h x (inl refl)))
    | inr later ↦
        let ne : ¬ (i ≡ x) = λ e. s.1 (subst (λ k. In k xs) e later) in
        bus-render_order_from xs (render_node p x) i s.2 (λ j k. h j (inr k)) later
        ∙ ap (λ a. process i (mixed all.bus (feeds i) xs a))
            (render_node-other p x i ne ∙ heard-top x xs p s (h x (inl refl)) (p.bus i) (feeds i x))
  ]
    where
      all : Planes A
      all = render_order xs (render_node p x)

  device-render_order_from :
      (xs : List ℕ) (p : Planes A)
      → Ordered (target nodes) xs
      → ((j : ℕ) → In j xs → j < length nodes)
      → (render_order xs p).device ≡ mixed (render_order xs p).bus feeds_device xs p.device
  unfolding render_order
  device-render_order_from [] p s h = refl
  device-render_order_from (x ∷ xs) p s h =
      device-render_order_from xs (render_node p x) s.2 (λ j k. h j (inr k))
      ∙ ap (mixed (render_order xs (render_node p x)).bus feeds_device xs)
          (render_node-device p x ∙ heard-top x xs p s (h x (inl refl)) p.device (feeds_device x))

-- `renderMixer`: without a master nothing is rendered.
unfoldable pub render_mixer : {A : Type 0} → Sound A → MixerGraph → Planes A → Planes A
render_mixer sound g p = if has_master g.master then render_order sound g.nodes g.order p else p

-- Rendering a graph that `finalise` has accepted: when the loop is over, each bus holds what its
-- inserts made of what was on it and then the finished signal of every node that feeds it, silent ones
-- left out, and the device has what was there and the finished signals of the masters; each sum is
-- taken in the order of the rendering.
pub render_mixer_lem :
    {A : Type 0} (sound : Sound A) (g : MixerGraph) {h : MixerGraph} (p : Planes A)
    → finalise g ≡ some (h, true)
    → let q = render_mixer sound h p in
      ((i : ℕ)
        → i < length g.nodes
        → q.bus i
          ≡ sound.process i (mixed sound h.nodes q.bus (feeds sound h.nodes i) h.order (p.bus i)))
      × (q.device ≡ mixed sound h.nodes q.bus (feeds_device sound h.nodes) h.order p.device)
unfolding render_mixer
render_mixer_lem sound g {h} p e =
    let (kept, r, (k, m, last)) = finalise-IsRenderOrder g e in
    let r' : IsRenderOrder h.nodes h.order = rw kept r in
    let inside = λ (j : ℕ) (m : In j h.order). (r'.complete j).1 m in
    rw m (
      λ i l.
          bus-render_order_from sound h.nodes h.order p i r'.ordered inside
            ((r'.complete i).0 (rw kept l)),
      device-render_order_from sound h.nodes h.order p r'.ordered inside,
    )
