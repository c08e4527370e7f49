-- ===== src/Realtime/Ring.antt =====
-- The bounded ring of messages: MpscRing in engine/src/core/rt/mpsc_ring.h, which is SpscRing too. Any
-- number of threads push and one pops; they interleave at each atomic access, in one order that all
-- see. A message is only moved, so it is a number.
pub mod Slots
pub mod Invariant
pub mod Moves
pub mod Claim
pub mod Publish
pub mod Steps
pub mod Fifo
use onebeat.Prelude.{
  ℕ, zero, suc, ◌+◌, ◌-◌, ◌%◌, ◌^◌, ◌≡◌, ◌≢◌, Bool, true, false, List, [], ◌∷◌, ◌++◌, ltb, ◌==◌,
  if◌then◌else◌,
}
use onebeat.Realtime.Publisher.{add_u64}

-- `pos & Mask`, where the capacity is a power of two.
unfoldable pub slot : ℕ → ℕ → ℕ
slot capacity pos = pos % capacity

-- The comparison of two `size_t` as `intptr_t`.
abbrev pub signed_lt : ℕ → ℕ → Bool
signed_lt a b = ltb (add_u64 a (2 ^ 63)) (add_u64 b (2 ^ 63))

-- Where a call of `tryPush` stands, with its local variables.
pub data Producer : Type 0 where
  idle : Producer
  reloading : (value : ℕ) → Producer
  pushing claiming writing : (value pos : ℕ) → Producer
  publishing : (pos : ℕ) → Producer

-- Where the call of `tryPop` stands.
pub data Consumer : Type 0 where
  resting polling : Consumer
  checking taking reading : (pos : ℕ) → Consumer
  releasing : (pos out : ℕ) → Consumer

-- `sequence` and `content` are the cells. The history is not in the source: `sent` has the messages by
-- the position that their push claimed, and `received` what `tryPop` has handed out.
pub record System : Type 0 where
  pub sequence : ℕ → ℕ
  pub content : ℕ → ℕ
  pub enqueue_pos : ℕ
  pub dequeue_pos : ℕ
  pub producers : ℕ → Producer
  pub consumer : Consumer
  pub sent : ℕ → ℕ
  pub received : List ℕ

abbrev pub at : {A : Type 0} → (ℕ → A) → ℕ → A → ℕ → A
at f i a j = if i == j then a else f j

-- The constructor; there is a cell for each index below the capacity.
abbrev pub init : System
init = record {
  sequence = λ i. i;
  content = λ i. 0;
  enqueue_pos = 0;
  dequeue_pos = 0;
  producers = λ i. idle;
  consumer = resting;
  sent = λ p. 0;
  received = [];
}

module _ (capacity : ℕ) where
  abbrev pub mask : ℕ
  mask = capacity - 1

  pub data Step (s : System) : System → Type 0 where
    call_push :
        (i value : ℕ)
        → s.producers i ≡ idle
        → Step s (record s { producers = at s.producers i (reloading value) })
    load_enqueue :
        (i : ℕ) {value : ℕ}
        → s.producers i ≡ reloading value
        → Step s (record s { producers = at s.producers i (pushing value s.enqueue_pos) })
    see_free :
        (i : ℕ) {value pos : ℕ}
        → s.producers i ≡ pushing value pos
        → s.sequence (slot capacity pos) ≡ pos
        → Step s (record s { producers = at s.producers i (claiming value pos) })
    see_full :
        (i : ℕ) {value pos : ℕ}
        → s.producers i ≡ pushing value pos
        → signed_lt (s.sequence (slot capacity pos)) pos ≡ true
        → Step s (record s { producers = at s.producers i idle })
    see_taken :
        (i : ℕ) {value pos : ℕ}
        → s.producers i ≡ pushing value pos
        → s.sequence (slot capacity pos) ≢ pos
        → signed_lt (s.sequence (slot capacity pos)) pos ≡ false
        → Step s (record s { producers = at s.producers i (reloading value) })
    claim :
        (i : ℕ) {value pos : ℕ}
        → s.producers i ≡ claiming value pos
        → s.enqueue_pos ≡ pos
        → Step s (record s {
          enqueue_pos = add_u64 pos 1;
          producers = at s.producers i (writing value pos);
          sent = at s.sent pos value;
        })
    -- a compare-exchange that is weak may also fail for no reason
    miss :
        (i : ℕ) {value pos : ℕ}
        → s.producers i ≡ claiming value pos
        → Step s (record s { producers = at s.producers i (pushing value s.enqueue_pos) })
    write :
        (i : ℕ) {value pos : ℕ}
        → s.producers i ≡ writing value pos
        → Step s (record s {
          content = at s.content (slot capacity pos) value;
          producers = at s.producers i (publishing pos);
        })
    publish :
        (i : ℕ) {pos : ℕ}
        → s.producers i ≡ publishing pos
        → Step s (record s {
          sequence = at s.sequence (slot capacity pos) (add_u64 pos 1);
          producers = at s.producers i idle;
        })
    call_pop : s.consumer ≡ resting → Step s (record s { consumer = polling })
    load_dequeue : s.consumer ≡ polling → Step s (record s { consumer = checking s.dequeue_pos })
    see_message :
        {pos : ℕ}
        → s.consumer ≡ checking pos
        → s.sequence (slot capacity pos) ≡ add_u64 pos 1
        → Step s (record s { consumer = taking pos })
    see_empty :
        {pos : ℕ}
        → s.consumer ≡ checking pos
        → signed_lt (s.sequence (slot capacity pos)) (add_u64 pos 1) ≡ true
        → Step s (record s { consumer = resting })
    see_passed :
        {pos : ℕ}
        → s.consumer ≡ checking pos
        → s.sequence (slot capacity pos) ≢ add_u64 pos 1
        → signed_lt (s.sequence (slot capacity pos)) (add_u64 pos 1) ≡ false
        → Step s (record s { consumer = polling })
    take :
        {pos : ℕ}
        → s.consumer ≡ taking pos
        → s.dequeue_pos ≡ pos
        → Step s (record s { dequeue_pos = add_u64 pos 1; consumer = reading pos })
    miss_take :
        {pos : ℕ}
        → s.consumer ≡ taking pos
        → Step s (record s { consumer = checking s.dequeue_pos })
    read :
        {pos : ℕ}
        → s.consumer ≡ reading pos
        → Step s (record s { consumer = releasing pos (s.content (slot capacity pos)) })
    release :
        {pos out : ℕ}
        → s.consumer ≡ releasing pos out
        → Step s (record s {
          sequence = at s.sequence (slot capacity pos) (add_u64 (add_u64 pos mask) 1);
          consumer = resting;
          received = s.received ++ out ∷ [];
        })

  pub data Reach : ℕ → System → Type 0 where
    start : Reach 0 init
    later : {n : ℕ} {s t : System} → Reach n s → Step s t → Reach (suc n) t
