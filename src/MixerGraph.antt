-- ===== src/MixerGraph.antt =====
-- The mixer graph of the audio thread: engine/src/core/mixer_graph.h and mixer_graph.cpp. The plugin
-- instance of an effect is not part of the model; the sizes of vectors fit an int32_t.
pub mod Marks
pub mod Visits
pub mod Steps
pub mod Search
pub mod Sorted
pub mod Finalise
pub mod Render
pub mod Order
use onebeat.Prelude.{
  ℕ, zero, suc, ◌+◌, ◌*◌, String, Bool, true, false, List, [], ◌∷◌, Option, none, some, ltb,
  if◌then◌else◌, length, get_elem?, set,
}
use onebeat.Prelude.Int.{ℤ, pos, negsuc}
use text.Mathlib.Text.{◌==◌}

pub record GraphEffect : Type 0 where
  pub index : ℤ
  pub effect_id : String

-- A negative `output` is the master, which feeds the device.
pub record GraphNode : Type 0 where
  pub output : ℤ
  pub effects : List GraphEffect
  pub track_id : String

pub record MixerGraph : Type 0 where
  pub nodes : List GraphNode
  pub order : List ℕ
  pub master : ℤ
  pub effect_count : ℕ

-- The scan from index `i` on.
index_from : ℕ → String → List GraphNode → ℤ
index_from i id [] = negsuc 0
index_from i id (node ∷ rest) =
    let later = index_from (i + 1) id rest in if node.track_id == id then pos i else later

pub index_of : MixerGraph → String → ℤ
unfolding index_from
index_of g id = index_from 0 id g.nodes

abbrev pub is_negative : ℤ → Bool
is_negative (pos n) = false
is_negative (negsuc n) = true

-- The first loop of `finalise`, from index `i` on: the master and the number of effects.
unfoldable pub survey : ℕ → List GraphNode → ℤ × ℕ → ℤ × ℕ
survey i [] found = found
survey i (node ∷ rest) (master, effects) =
    survey (i + 1) rest
      (if is_negative node.output then pos i else master, effects + length node.effects)

-- 0, 1 and 2 in the source.
pub data Mark : Type 0 where
  unvisited active finished : Mark

-- A mark out of range is not read.
abbrev pub mark_at : List Mark → ℕ → Mark
mark_at [] i = unvisited
mark_at (m ∷ ms) zero = m
mark_at (m ∷ ms) (suc i) = mark_at ms i

-- The stack has its top first, and `reverse`, which only grows at its end, its end first: so it is
-- the order that `finalise` reads off.
pub record Sort : Type 0 where
  pub state : List Mark
  pub stack : List ℕ
  pub reverse : List ℕ

-- Where an output leads, if that is a node.
abbrev pub route : ℕ → ℤ → Option ℕ
route count (negsuc n) = none
route count (pos o) = if ltb o count then some o else none

abbrev pub output_at : List GraphNode → ℕ → ℤ
output_at [] i = negsuc 0
output_at (node ∷ rest) zero = node.output
output_at (node ∷ rest) (suc i) = output_at rest i

pub data Visit : Type 0 where
  again : Sort → Visit
  back_edge : Visit

pub data Outcome : Type 0 where
  sorted : Sort → Outcome
  cycle out_of_fuel : Outcome

-- The output of a node that has just been marked, by its own mark.
abbrev pub offer : Sort → ℕ → Mark → Visit
offer s output active = back_edge
offer s output unvisited = again (record s { stack = output ∷ s.stack })
offer s output finished = again s

abbrev pub follow : Sort → Option ℕ → Visit
follow s none = again s
follow s (some output) = offer s output (mark_at s.state output)

module _ (nodes : List GraphNode) where
  unfoldable pub target : ℕ → Option ℕ
  target i = route (length nodes) (output_at nodes i)

  -- The body of the while loop, at the top of the stack and its mark; `rest` is what is below.
  unfoldable pub visit : ℕ → List ℕ → Sort → Mark → Visit
  visit current rest s finished = again (record s { stack = rest })
  visit current rest s active =
      again (record {
        state = set s.state current finished;
        stack = rest;
        reverse = current ∷ s.reverse;
      })
  visit current rest s unvisited =
      follow (record s { state = set s.state current active; stack = current ∷ rest })
        (target current)

  unfoldable pub drain : ℕ → Sort → Outcome
  drain zero s = elim s.stack [ [] ↦ sorted s | _ ∷ _ ↦ out_of_fuel ]
  drain (suc fuel) s = elim s.stack [
    | [] ↦ sorted s
    | current ∷ rest ↦ elim (visit current rest s (mark_at s.state current)) [
      | again s' ↦ drain fuel s'
      | back_edge ↦ cycle
    ]
  ]

  -- A while loop runs at most three times for each node.
  abbrev pub fuel : ℕ
  fuel = 3 * length nodes + 1

  abbrev pub push : ℕ → Sort → Sort
  push start s = record s { stack = start ∷ s.stack }

  -- The for loop, with `rounds` starts left.
  unfoldable pub starts : ℕ → ℕ → Sort → Outcome
  starts zero start s = sorted s
  starts (suc rounds) start s = elim (mark_at s.state start) [
    | unvisited ↦ elim (drain fuel (push start s)) [
      | sorted s' ↦ starts rounds (start + 1) s'
      | cycle ↦ cycle
      | out_of_fuel ↦ out_of_fuel
    ]
    | _ ↦ starts rounds (start + 1) s
  ]

abbrev pub blank : List GraphNode → List Mark
blank [] = []
blank (node ∷ rest) = unvisited ∷ blank rest

unfoldable pub topological : List GraphNode → Outcome
topological nodes =
    starts nodes (length nodes) 0 (record { state = blank nodes; stack = []; reverse = [] })

abbrev pub has_master : ℤ → Bool
has_master (pos n) = true
has_master (negsuc n) = false

abbrev pub conclude : MixerGraph → Outcome → Option (MixerGraph × Bool)
conclude g (sorted s) = some (record g { order = s.reverse }, has_master g.master)
conclude g cycle = some (g, false)
conclude g out_of_fuel = none

-- The new graph and what is returned; `none` is a loop that has not ended.
unfoldable pub finalise : MixerGraph → Option (MixerGraph × Bool)
finalise g =
    let (master, effects) = survey 0 g.nodes (negsuc 0, 0) in
    conclude (record g { order = []; master = master; effect_count = effects })
      (topological g.nodes)
