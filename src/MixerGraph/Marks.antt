-- ===== src/MixerGraph/Marks.antt =====
-- Reading and writing marks, and the weight of what is left to do.
use onebeat.Prelude.{
  ℕ, zero, suc, ◌+◌, ◌*◌, ◌≤◌, ◌<◌, ◌≡◌, refl, ap, List, [], ◌∷◌, ◌≢◌, ◌⊎◌, inl, inr, ◌==◌, arith,
  if◌then◌else◌, length, set,
}
use onebeat.MixerGraph.{GraphNode, Mark, unvisited, active, finished, mark_at, blank}

pub mark_at-set :
    (ms : List Mark) (i j : ℕ) (m : Mark)
    → i < length ms
    → mark_at (set ms i m) j ≡ (if i == j then m else mark_at ms j)
mark_at-set [] i j m h = absurd (omega arith)
mark_at-set (x ∷ ms) zero zero m h = refl
mark_at-set (x ∷ ms) zero (suc j) m h = ground arith
mark_at-set (x ∷ ms) (suc i) zero m h = ground arith
mark_at-set (x ∷ ms) (suc i) (suc j) m h = ground (arith, mark_at-set ms i j m)

pub length-set : (ms : List Mark) (i : ℕ) (m : Mark) → length (set ms i m) ≡ length ms
length-set [] i m = refl
length-set (x ∷ ms) zero m = refl
length-set (x ∷ ms) (suc i) m = ap suc (length-set ms i m)

-- A node out of range is never marked.
pub marked-lt : (ms : List Mark) (i : ℕ) → mark_at ms i ≢ unvisited → i < length ms
marked-lt [] i h = absurd (h refl)
marked-lt (m ∷ ms) zero h = omega arith
marked-lt (m ∷ ms) (suc i) h = omega (arith, marked-lt ms i h)

pub mark_at-blank : (nodes : List GraphNode) (i : ℕ) → mark_at (blank nodes) i ≡ unvisited
mark_at-blank [] i = refl
mark_at-blank (node ∷ rest) zero = refl
mark_at-blank (node ∷ rest) (suc i) = mark_at-blank rest i

pub length-blank : (nodes : List GraphNode) → length (blank nodes) ≡ length nodes
length-blank [] = refl
length-blank (node ∷ rest) = ap suc (length-blank rest)

-- How many visits a node may still take, with what they push.
abbrev weight : Mark → ℕ
weight unvisited = 3
weight active = 1
weight finished = 0

pub work : List Mark → ℕ
work [] = 0
work (m ∷ ms) = weight m + work ms

pub work-enter :
    (ms : List Mark) (i : ℕ)
    → i < length ms
    → mark_at ms i ≡ unvisited
    → work (set ms i active) + 2 ≡ work ms
unfolding work
work-enter [] i h e = absurd (omega arith)
work-enter (m ∷ ms) zero h e = rw e (omega arith)
work-enter (m ∷ ms) (suc i) h e = omega (arith, work-enter ms i (omega arith) e)

pub work-leave :
    (ms : List Mark) (i : ℕ)
    → i < length ms
    → mark_at ms i ≡ active
    → work (set ms i finished) + 1 ≡ work ms
unfolding work
work-leave [] i h e = absurd (omega arith)
work-leave (m ∷ ms) zero h e = rw e (omega arith)
work-leave (m ∷ ms) (suc i) h e = omega (arith, work-leave ms i (omega arith) e)

pub work-le : (ms : List Mark) → work ms ≤ 3 * length ms
unfolding work
work-le [] = omega arith
work-le (unvisited ∷ ms) = omega (arith, work-le ms)
work-le (active ∷ ms) = omega (arith, work-le ms)
work-le (finished ∷ ms) = omega (arith, work-le ms)

pub Mark-cases : (m : Mark) → (m ≡ unvisited) ⊎ ((m ≡ active) ⊎ (m ≡ finished))
Mark-cases unvisited = inl refl
Mark-cases active = inr (inl refl)
Mark-cases finished = inr (inr refl)
