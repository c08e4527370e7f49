-- ===== src/Realtime/Publisher.antt =====
-- Publishing to the audio thread and freeing what it no longer reads: NonRealtimeMutable in
-- engine/src/core/rt/publisher.h. Threads interleave at each atomic access, in one order that all see;
-- what happens under the mutex is one step. Any number of threads publish; one reads and one collects.
pub mod Invariant
pub mod Steps
pub mod Safety
pub mod Reclaim
use onebeat.Prelude.{
  ℕ, zero, suc, ◌+◌, ◌%◌, ◌^◌, ◌≡◌, Bool, true, false, not, ◌||◌, List, [], ◌∷◌, ◌++◌, Option, none,
  some, leb, ◌==◌, if◌then◌else◌,
}

-- `uint64_t` addition
abbrev pub add_u64 : ℕ → ℕ → ℕ
add_u64 a b = (a + b) % 2 ^ 64

pub record Retired : Type 0 where
  pub object : ℕ
  pub epoch : ℕ

-- A block of the audio thread, with the pointers that it has loaded.
pub data Audio : Type 0 where
  outside : Audio
  inside : (held : List ℕ) → Audio

-- Where a call of `publish` stands, with its local variables.
pub data Writer : Type 0 where
  idle : Writer
  exchanged : (previous : Option ℕ) → Writer
  counted : (previous : ℕ) → Writer
  stamped : (previous retire_epoch : ℕ) → Writer

-- Where `collect` stands. `asked` is its caller's choice of `rt_running`.
pub data Collector : Type 0 where
  resting : Collector
  asked : (rt_running : Bool) → Collector
  loaded : (rt_running : Bool) (epoch : ℕ) → Collector
  freeing : (doomed : List ℕ) → Collector

-- Objects are numbered as they are made; `fresh` is the next. `deleted` lists what has been freed.
pub record System : Type 0 where
  pub current : Option ℕ
  pub rt_epoch : ℕ
  pub generation : ℕ
  pub retired : List Retired
  pub fresh : ℕ
  pub deleted : List ℕ
  pub audio : Audio
  pub writers : ℕ → Writer
  pub collector : Collector

abbrev pub update : (ℕ → Writer) → ℕ → Writer → ℕ → Writer
update f i w j = if i == j then w else f j

-- The test of `collect` on a retired object.
abbrev pub is_doomed : Bool → ℕ → Retired → Bool
is_doomed rt_running epoch r = not rt_running || leb (add_u64 r.epoch 2) epoch

-- What the loop of `collect` moves out of the list, and what it leaves there.
unfoldable pub doomed : Bool → ℕ → List Retired → List ℕ
doomed rt_running epoch [] = []
doomed rt_running epoch (r ∷ rs) =
    let rest = doomed rt_running epoch rs in
    if is_doomed rt_running epoch r then r.object ∷ rest else rest

pub kept : Bool → ℕ → List Retired → List Retired
kept rt_running epoch [] = []
kept rt_running epoch (r ∷ rs) =
    let rest = kept rt_running epoch rs in if is_doomed rt_running epoch r then rest else r ∷ rest

abbrev pub load : Option ℕ → List ℕ → List ℕ
load none held = held
load (some p) held = p ∷ held

abbrev pub after_count : Option ℕ → Writer
after_count none = idle
after_count (some p) = counted p

-- A collection that believes that nothing renders, before it has swept the list.
abbrev pub trusts_silence : Collector → Bool
trusts_silence (asked false) = true
trusts_silence (loaded false epoch) = true
trusts_silence _ = false

-- One step of one thread. Where `guarded` is true no block begins while a collection trusts that
-- nothing renders.
pub data Step (guarded : Bool) (s : System) : System → Type 0 where
  begin_block :
      s.audio ≡ outside
      → (guarded ≡ true → trusts_silence s.collector ≡ false)
      → Step guarded s (record s { rt_epoch = add_u64 s.rt_epoch 1; audio = inside [] })
  acquire :
      {held : List ℕ}
      → s.audio ≡ inside held
      → Step guarded s (record s { audio = inside (load s.current held) })
  end_block :
      {held : List ℕ} → s.audio ≡ inside held → Step guarded s (record s { audio = outside })
  exchange :
      (i : ℕ)
      → s.writers i ≡ idle
      → Step guarded s (record s {
        current = some s.fresh;
        fresh = suc s.fresh;
        writers = update s.writers i (exchanged s.current);
      })
  exchange_null :
      (i : ℕ)
      → s.writers i ≡ idle
      → Step guarded s
          (record s { current = none; writers = update s.writers i (exchanged s.current) })
  count :
      (i : ℕ) {previous : Option ℕ}
      → s.writers i ≡ exchanged previous
      → Step guarded s (record s {
        generation = add_u64 s.generation 1;
        writers = update s.writers i (after_count previous);
      })
  stamp :
      (i : ℕ) {p : ℕ}
      → s.writers i ≡ counted p
      → Step guarded s (record s { writers = update s.writers i (stamped p s.rt_epoch) })
  retire :
      (i : ℕ) {p e : ℕ}
      → s.writers i ≡ stamped p e
      → Step guarded s (record s {
        retired = s.retired ++ record { object = p; epoch = e } ∷ [];
        writers = update s.writers i idle;
      })
  ask :
      (rt_running : Bool)
      → s.collector ≡ resting
      → (rt_running ≡ false → s.audio ≡ outside)
      → Step guarded s (record s { collector = asked rt_running })
  load_epoch :
      {rt_running : Bool}
      → s.collector ≡ asked rt_running
      → Step guarded s (record s { collector = loaded rt_running s.rt_epoch })
  sweep :
      {rt_running : Bool} {epoch : ℕ}
      → s.collector ≡ loaded rt_running epoch
      → Step guarded s (record s {
        retired = kept rt_running epoch s.retired;
        collector = freeing (doomed rt_running epoch s.retired);
      })
  free :
      {objects : List ℕ}
      → s.collector ≡ freeing objects
      → Step guarded s (record s { deleted = objects ++ s.deleted; collector = resting })

abbrev pub init : System
init = record {
  current = none;
  rt_epoch = 0;
  generation = 0;
  retired = [];
  fresh = 0;
  deleted = [];
  audio = outside;
  writers = λ _. idle;
  collector = resting;
}

-- The states that a number of steps leads to.
pub data Reach (guarded : Bool) : ℕ → System → Type 0 where
  start : Reach guarded 0 init
  later : {n : ℕ} {s t : System} → Reach guarded n s → Step guarded s t → Reach guarded (suc n) t
