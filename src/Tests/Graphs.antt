-- ===== src/Tests/Graphs.antt =====
-- Mixer graphs: one that is accepted, one with feedback, and the theorems at the first.
use onebeat.Prelude.{String, ℕ, ◌+◌, ◌<◌, ◌≡◌, refl, Bool, true, false, [], ◌∷◌, some, ◌↔◌, length}
use onebeat.Prelude.Int.{ℤ, pos, negsuc}
use onebeat.MixerGraph.{
  GraphNode, MixerGraph, survey, target, visit, drain, starts, topological, finalise,
}
use onebeat.MixerGraph.Search.{Cyclic}
use onebeat.MixerGraph.Finalise.{
  IsLastMaster, IsRenderOrder, finalise_terminates, finalise-IsRenderOrder, finalise-eq-true,
}
use onebeat.MixerGraph.Render.{
  Sound, Planes, render_node, render_order, render_mixer, mixed, feeds, feeds_device,
  render_mixer_lem,
}

abbrev node : ℤ → String → GraphNode
node output id = record { output = output; effects = []; track_id = id }

-- drums into a bus, the bus into the master
abbrev buses : MixerGraph
buses = record {
  nodes =
      record {
        output = pos 1;
        effects = record { index = pos 0; effect_id = "reverb" } ∷ [];
        track_id = "bus";
      }
      ∷ node (negsuc 0) "master"
      ∷ node (pos 0) "drums"
      ∷ [];
  order = [];
  master = negsuc 0;
  effect_count = 0;
}

abbrev sorted_buses : MixerGraph
sorted_buses = record buses { order = 2 ∷ 0 ∷ 1 ∷ []; master = pos 1; effect_count = 1 }

-- two tracks that feed each other
abbrev feedback : MixerGraph
feedback = record buses {
  nodes = node (pos 1) "a" ∷ node (pos 0) "b" ∷ node (negsuc 0) "master" ∷ [];
}

finalise-buses : finalise buses ≡ some (sorted_buses, true)
unfolding finalise topological starts drain visit target survey
finalise-buses = refl

finalise-feedback : finalise feedback ≡ some (record feedback { master = pos 2 }, false)
unfolding finalise topological starts drain visit target survey
finalise-feedback = refl

finalise_terminates_example : (r : MixerGraph × Bool) × (finalise feedback ≡ some r)
finalise_terminates_example = finalise_terminates feedback

finalise-IsRenderOrder_example :
    (sorted_buses.nodes ≡ buses.nodes)
    × IsRenderOrder buses.nodes (2 ∷ 0 ∷ 1 ∷ [])
    × ((k : ℕ) × (pos 1 ≡ pos k) × IsLastMaster buses.nodes k)
finalise-IsRenderOrder_example = finalise-IsRenderOrder buses finalise-buses

finalise-eq-true_example :
    (false ≡ true) ↔ (¬ Cyclic feedback.nodes × ((k : ℕ) × IsLastMaster feedback.nodes k))
finalise-eq-true_example = finalise-eq-true feedback finalise-feedback

-- Sums of numbers, with one added by each node.
abbrev counting : Sound ℕ
counting = record { add = ◌+◌; process = λ i a. a + 1; scaled = λ i a. a; silent = λ i. false }

abbrev quiet : Planes ℕ
quiet = record { bus = λ i. 10; device = 0 }

device-render_mixer : (render_mixer counting sorted_buses quiet).device ≡ 33
unfolding render_mixer render_order render_node
device-render_mixer = refl

render_mixer_lem_example :
    let q = render_mixer counting sorted_buses quiet in
    ((i : ℕ)
      → i < length buses.nodes
      → q.bus i
        ≡ mixed counting sorted_buses.nodes q.bus
            (feeds counting sorted_buses.nodes i)
            (2 ∷ 0 ∷ 1 ∷ [])
            10
          + 1)
    × (q.device
        ≡ mixed counting sorted_buses.nodes q.bus
            (feeds_device counting sorted_buses.nodes)
            (2 ∷ 0 ∷ 1 ∷ [])
            0)
render_mixer_lem_example = render_mixer_lem counting buses quiet finalise-buses
