-- ===== src/Schedule/Chunks.antt =====
-- The walk of engine/src/core/engine.cpp over the events of a chunk.
use onebeat.Prelude.{
  ℕ, ◌≡◌, refl, sym, ap, ap₂, ◌∙◌, inl, inr, Bool, true, false, ◌&&◌, List, [], ◌∷◌, ◌++◌, some,
  arith, drop, keep_if, All, Bool-cases,
}
use onebeat.Prelude.Int.{ℤ, ◌≤ℤ◌, ltb_ℤ, leb_ℤ}
use onebeat.Prelude.Sorting.{is_sorted, partition_point, head_first, is_sorted-tail}
use onebeat.Prelude.Sorting.Stable.{keep_if_none}
use onebeat.Schedule.{
  ScheduleEvent, Schedule, ScheduleBuilder, event_before, build, before_end, chunk_events,
}
use onebeat.Schedule.Order.{event_order, not_earlier, build_lem}
use onebeat.Schedule.Search.{earlier, lower_bound-eq}

-- The event falls into the chunk.
abbrev pub falls_in : ℤ → ℤ → ScheduleEvent → Bool
falls_in chunk_start chunk_end e = leb_ℤ chunk_start e.frame && ltb_ℤ e.frame chunk_end

all_late :
    (a b : ℤ) (x : ScheduleEvent) (es : List ScheduleEvent)
    → b ≤ℤ x.frame
    → All (λ e. event_before e x ≡ false) es
    → All (λ e. falls_in a b e ≡ false) es
all_late a b x [] h l = tt
all_late a b x (y ∷ ys) h l = (ground (arith, not_earlier x y l.0), all_late a b x ys h l.1)

before_end-keep_if :
    (a b : ℤ) (es : List ScheduleEvent)
    → is_sorted event_before es ≡ true
    → All (λ e. a ≤ℤ e.frame) es
    → before_end b es ≡ keep_if (falls_in a b) es
before_end-keep_if a b [] h l = refl
before_end-keep_if a b (x ∷ es) h l = elim (Bool-cases (ltb_ℤ x.frame b)) [
  | inl e ↦
      let ih = before_end-keep_if a b es (is_sorted-tail event_order x es h) l.1 in
      ground (arith, ih, l.0)
  | inr e ↦
      let none_left =
        keep_if_none (falls_in a b) es
          (all_late a b x es (ground arith) (head_first event_order x es h)) in
      ground (arith, none_left)
]

all_after :
    (a : ℤ) (x : ScheduleEvent) (es : List ScheduleEvent)
    → a ≤ℤ x.frame
    → All (λ e. event_before e x ≡ false) es
    → All (λ e. a ≤ℤ e.frame) es
all_after a x [] h l = tt
all_after a x (y ∷ ys) h l = (omega (arith, not_earlier x y l.0), all_after a x ys h l.1)

walk-keep_if :
    (a b : ℤ) (es : List ScheduleEvent)
    → is_sorted event_before es ≡ true
    → before_end b (drop (partition_point (earlier a) es) es) ≡ keep_if (falls_in a b) es
unfolding partition_point
walk-keep_if a b [] h = refl
walk-keep_if a b (x ∷ es) h = elim (Bool-cases (earlier a x)) [
  | inl e ↦ rw e (ground (arith, walk-keep_if a b es (is_sorted-tail event_order x es h)))
  | inr e ↦ rw e (
      before_end-keep_if a b (x ∷ es) h
        (ground arith, all_after a x es (ground arith) (head_first event_order x es h)))
]

chunk_events-eq :
    (s : Schedule) (a b : ℤ)
    → is_sorted event_before s.events ≡ true
    → chunk_events s a b ≡ some (keep_if (falls_in a b) s.events)
unfolding chunk_events
chunk_events-eq s a b h =
    rw (lower_bound-eq s a h, chunk_events) (ap some (walk-keep_if a b s.events h))

-- in a sorted list what falls before `b` stands before what does not
keep_if-append :
    (a b c : ℤ) (es : List ScheduleEvent)
    → a ≤ℤ b
    → b ≤ℤ c
    → is_sorted event_before es ≡ true
    → keep_if (falls_in a b) es ++ keep_if (falls_in b c) es ≡ keep_if (falls_in a c) es
keep_if-append a b c [] h k s = refl
keep_if-append a b c (x ∷ es) h k s = elim (Bool-cases (ltb_ℤ x.frame b)) [
  | inl e ↦ ground (arith, keep_if-append a b c es h k (is_sorted-tail event_order x es s))
  | inr e ↦
      let none_left =
        keep_if_none (falls_in a b) es
          (all_late a b x es (ground arith) (head_first event_order x es s)) in
      ground (arith, none_left, keep_if-append a b c es h k (is_sorted-tail event_order x es s))
]

-- The walk over a chunk of a schedule that `build` has made returns, and visits exactly the events whose
-- frame lies in the chunk, in the order of the schedule; and of two chunks that meet, the walks together
-- are the walk over both, so that no event is played twice and none is lost where a block is split.
pub chunk_events_lem :
    (builder : ScheduleBuilder) (rate generation : ℕ) (a b c : ℤ)
    → a ≤ℤ b
    → b ≤ℤ c
    → let s = build builder rate generation in
      (chunk_events s a c ≡ some (keep_if (falls_in a c) s.events))
      × ((l r : List ScheduleEvent)
          → chunk_events s a b ≡ some l
          → chunk_events s b c ≡ some r
          → chunk_events s a c ≡ some (l ++ r))
chunk_events_lem builder rate generation a b c h k =
    let s = build builder rate generation in
    let sorted = (build_lem builder rate generation).1 in
    (
      chunk_events-eq s a c sorted,
      λ l r p q.
          let pl : l ≡ keep_if (falls_in a b) s.events = cc (p, chunk_events-eq s a b sorted) in
          let pr : r ≡ keep_if (falls_in b c) s.events = cc (q, chunk_events-eq s b c sorted) in
          chunk_events-eq s a c sorted
          ∙ ap some (sym (ap₂ ◌++◌ pl pr ∙ keep_if-append a b c s.events h k sorted)),
    )
