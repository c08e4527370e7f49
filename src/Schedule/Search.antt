-- ===== src/Schedule/Search.antt =====
-- `lowerBound` of engine/src/core/schedule.h.
use onebeat.Prelude.{
  ℕ, zero, suc, ◌+◌, ◌-◌, ◌/◌, ◌≤◌, ◌<◌, ◌≡◌, refl, ap, ◌↔◌, inl, inr, Bool, true, false, List, [],
  ◌∷◌, some, ltb, arith, length, get_elem?, All, Bool-cases,
}
use onebeat.Prelude.Int.{ℤ, ◌≤ℤ◌, ◌<ℤ◌, ltb_ℤ}
use onebeat.Prelude.Sorting.{is_sorted, partition_point, head_first, is_sorted-tail}
use onebeat.Schedule.{
  ScheduleEvent, Schedule, ScheduleBuilder, event_before, lower_bound_loop, lower_bound, build,
}
use onebeat.Schedule.Order.{event_order, not_earlier, build_lem}

abbrev pub earlier : ℤ → ScheduleEvent → Bool
earlier frame e = ltb_ℤ e.frame frame

none_earlier :
    (frame : ℤ) (x : ScheduleEvent) (es : List ScheduleEvent)
    → frame ≤ℤ x.frame
    → All (λ e. event_before e x ≡ false) es
    → (i : ℕ) {e : ScheduleEvent} → get_elem? es i ≡ some e
    → frame ≤ℤ e.frame
none_earlier frame x [] h a i q = absurd (cc)
none_earlier frame x (y ∷ ys) h a zero q = ground (arith, not_earlier x y a.0)
none_earlier frame x (y ∷ ys) h a (suc i) q = none_earlier frame x ys h a.1 i q

-- On a sorted list the events before a frame are the first ones.
pub earlier_iff :
    (frame : ℤ) (es : List ScheduleEvent)
    → is_sorted event_before es ≡ true
    → (i : ℕ) {e : ScheduleEvent} → get_elem? es i ≡ some e
    → (e.frame <ℤ frame) ↔ (i < partition_point (earlier frame) es)
unfolding partition_point
earlier_iff frame [] h i q = absurd (cc)
earlier_iff frame (x ∷ es) h zero q = ground arith
earlier_iff frame (x ∷ es) h (suc i) {e} q = elim (Bool-cases (earlier frame x)) [
  | inl b ↦
      let ih = earlier_iff frame es (is_sorted-tail event_order x es h) i q in
      rw b (λ l. omega (arith, ih.0 l), λ l. ih.1 (omega arith))
  | inr b ↦
      let late : frame ≤ℤ e.frame =
        none_earlier frame x es (ground arith) (head_first event_order x es h) i q in
      rw b (λ l. absurd (omega arith), λ l. absurd (omega arith))
]

partition_point-le :
    (frame : ℤ) (es : List ScheduleEvent) → partition_point (earlier frame) es ≤ length es
unfolding partition_point
partition_point-le frame [] = omega arith
partition_point-le frame (x ∷ es) = ground (arith, partition_point-le frame es)

in_range :
    (es : List ScheduleEvent) (i : ℕ)
    → i < length es
    → (e : ScheduleEvent) × (get_elem? es i ≡ some e)
in_range [] i h = absurd (omega arith)
in_range (x ∷ es) zero h = (x, refl)
in_range (x ∷ es) (suc i) h = in_range es i (omega arith)

module _ (frame : ℤ) (es : List ScheduleEvent) (sorted : is_sorted event_before es ≡ true) where
  abbrev split : ℕ
  split = partition_point (earlier frame) es

  loop-split :
      (fuel low high : ℕ)
      → low ≤ split
      → split ≤ high
      → high ≤ length es
      → high - low ≤ fuel
      → lower_bound_loop fuel es frame low high ≡ some split
  unfolding lower_bound_loop
  loop-split zero low high a b c d = let q : low ≡ split = omega arith in ground arith
  loop-split (suc fuel) low high a b c d = elim (Bool-cases (ltb low high)) [
    | inr over ↦ let q : low ≡ split = ground arith in rw (over, lower_bound_loop) (ap some q)
    | inl on ↦
        let mid = low + (high - low) / 2 in
        let h : low < high = ground arith in
        let (e, at_mid) = in_range es (low + (high - low) / 2) (omega arith) in
        let side = earlier_iff frame es sorted (low + (high - low) / 2) at_mid in
        rw (on, at_mid, lower_bound_loop)
          (elim (Bool-cases (ltb_ℤ e.frame frame)) [
            | inl before ↦
                let l : e.frame <ℤ frame = ground arith in
                rw before (
                  loop-split fuel (low + (high - low) / 2 + 1) high (omega (arith, side.0 l)) b c
                    (omega arith))
            | inr after ↦ rw after (
                loop-split fuel low (low + (high - low) / 2) a (ground (arith, side)) (omega arith)
                  (omega arith))
          ])
  ]

-- The search ends, and on a sorted schedule gives the number of events before the frame.
pub lower_bound-eq :
    (s : Schedule) (frame : ℤ)
    → is_sorted event_before s.events ≡ true
    → lower_bound s frame ≡ some (partition_point (earlier frame) s.events)
unfolding lower_bound
lower_bound-eq s frame h =
    loop-split frame s.events h (length s.events) 0 (length s.events) (omega arith)
      (partition_point-le frame s.events) (omega arith) (omega arith)

-- On a schedule that `build` has made, `lowerBound` returns, reading no event out of range, and what it
-- returns splits the events: those before that index are before the frame, and the others are not.
pub lower_bound_lem :
    (b : ScheduleBuilder) (rate generation : ℕ) (frame : ℤ)
    → let s = build b rate generation in
      (r : ℕ) × (lower_bound s frame ≡ some r)
      × (r ≤ length s.events)
      × ((i : ℕ) (e : ScheduleEvent) → get_elem? s.events i ≡ some e → (e.frame <ℤ frame) ↔ (i < r))
lower_bound_lem b rate generation frame =
    let sorted = (build_lem b rate generation).1 in
    let s = build b rate generation in
    (
      partition_point (earlier frame) s.events,
      lower_bound-eq s frame sorted,
      partition_point-le frame s.events,
      λ i e q. earlier_iff frame s.events sorted i q,
    )
