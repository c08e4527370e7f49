-- ===== src/Tests/Messages.antt =====
-- The ring of messages, on concrete interleavings, with two cells and with one.
use onebeat.Prelude.{ℕ, suc, ◌+◌, ◌≡◌, refl, arith, ◌⊎◌, true, [], ◌∷◌, ◌++◌}
use onebeat.Realtime.Publisher.{add_u64}
use onebeat.Realtime.Ring.{
  slot, pushing, checking, System, signed_lt, init, Step, call_push, load_enqueue, see_free, claim,
  write, publish, call_pop, load_dequeue, see_message, take, read, release, Reach, start, later,
}
use onebeat.Realtime.Ring.Invariant.{floor}
use onebeat.Realtime.Ring.Fifo.{QueueRun, contents, gone, Reach-QueueRun, refusals_lem}

record Run (capacity : ℕ) : Type 0 where
  steps : ℕ
  last : System
  reach : Reach capacity steps last

abbrev begun : {capacity : ℕ} → Run capacity
begun = record { steps = 0; last = init; reach = start }

abbrev go : {capacity : ℕ} (r : Run capacity) {t : System} → Step capacity r.last t → Run capacity
go r {t} st = record { steps = suc r.steps; last = t; reach = later r.reach st }

-- messages 7 and 8 are pushed into two cells
abbrev pushed_one : Run 2
unfolding slot
pushed_one =
    go
      (go
        (go (go (go (go begun (call_push 0 7 refl)) (load_enqueue 0 refl)) (see_free 0 refl refl))
          (claim 0 refl refl))
        (write 0 refl))
      (publish 0 refl)

abbrev pushed_two : Run 2
unfolding slot
pushed_two =
    go
      (go
        (go
          (go (go (go pushed_one (call_push 1 8 refl)) (load_enqueue 1 refl))
            (see_free 1 refl refl))
          (claim 1 refl refl))
        (write 1 refl))
      (publish 1 refl)

-- and the first is popped
abbrev popped : Run 2
unfolding slot
popped =
    go
      (go
        (go (go (go (go pushed_two (call_pop refl)) (load_dequeue refl)) (see_message refl refl))
          (take refl refl))
        (read refl))
      (release refl)

popped_lem : (contents popped.last ≡ 8 ∷ []) × (popped.last.received ≡ 7 ∷ [])
unfolding slot popped pushed_two pushed_one
popped_lem = (refl, refl)

Reach-QueueRun_example :
    QueueRun 2 (contents popped.last) (gone popped.last)
    × ((popped.last.received ≡ gone popped.last)
        ⊎ ((p : ℕ) × (popped.last.dequeue_pos ≡ suc p)
            × (popped.last.received ++ popped.last.sent p ∷ [] ≡ gone popped.last)))
unfolding slot popped pushed_two pushed_one
Reach-QueueRun_example = Reach-QueueRun 2 (omega arith) popped.reach (omega arith)

-- a third push finds both cells taken
abbrev crowded : Run 2
unfolding slot pushed_two pushed_one
crowded = go (go pushed_two (call_push 0 9 refl)) (load_enqueue 0 refl)

refusals_lem_example :
    ((i value pos : ℕ)
      → crowded.last.producers i ≡ pushing value pos
      → signed_lt (crowded.last.sequence (slot 2 pos)) pos ≡ true
      → crowded.last.enqueue_pos ≡ floor 2 crowded.last + 2)
    × ((pos : ℕ)
        → crowded.last.consumer ≡ checking pos
        → signed_lt (crowded.last.sequence (slot 2 pos)) (add_u64 pos 1) ≡ true
        → (pos ≡ crowded.last.dequeue_pos) × (crowded.last.sequence (slot 2 pos) ≡ pos))
unfolding crowded
refusals_lem_example = refusals_lem 2 (omega arith) crowded.reach (omega arith)

refused-crowded : signed_lt (crowded.last.sequence (slot 2 2)) 2 ≡ true
unfolding slot crowded pushed_two pushed_one
refused-crowded = refl

-- With a single cell the second push takes the first one's message for a free cell.
abbrev one_cell : Run 1
unfolding slot
one_cell =
    let first : Run 1 =
      go
        (go
          (go (go (go (go begun (call_push 0 7 refl)) (load_enqueue 0 refl)) (see_free 0 refl refl))
            (claim 0 refl refl))
          (write 0 refl))
        (publish 0 refl) in
    go
      (go (go (go (go first (call_push 1 8 refl)) (load_enqueue 1 refl)) (see_free 1 refl refl))
        (claim 1 refl refl))
      (write 1 refl)

one_cell_overwrites :
    (one_cell.last.dequeue_pos ≡ 0)
    × (one_cell.last.enqueue_pos ≡ 2)
    × (one_cell.last.content 0 ≡ 8)
unfolding slot one_cell
one_cell_overwrites = (refl, refl, refl)
