-- ===== src/Schedule/Order.antt =====
-- The order of events, and `build` of engine/src/core/schedule.cpp.
use onebeat.Prelude.{
  ℕ, ◌≤◌, ◌≡◌, refl, ap, ◌∙◌, ◌++◌, ◌⊎◌, inl, inr, true, false, List, [], ◌∷◌, arith, keep_if, All,
}
use mathlib.Core.List.{Perm}
use onebeat.Prelude.Int.{ℤ, pos, ◌≤ℤ◌, ◌<ℤ◌, leb_ℤ}
use onebeat.Prelude.Sorting.{
  StrictWeak, stable_sort, is_sorted, stable_sort-perm, stable_sort-is_sorted, head_first,
  is_sorted-tail,
}
use onebeat.Prelude.Sorting.Stable.{equivalent, keep_if-stable_sort}
use onebeat.Schedule.{ScheduleEvent, ScheduleBuilder, event_before, back_frame, build}

event_asymm : (a b : ScheduleEvent) → event_before a b ≡ true → event_before b a ≡ false
unfolding event_before
event_asymm a b h = ground arith

-- `a` comes first or the two are equivalent
abbrev NotAfter : ScheduleEvent → ScheduleEvent → Type 0
NotAfter a b = (a.frame <ℤ b.frame) ⊎ ((a.frame ≤ℤ b.frame) × (b.type ≤ a.type))

before→NotAfter : (a b : ScheduleEvent) → event_before b a ≡ false → NotAfter a b
unfolding event_before
before→NotAfter a b h = ground arith

NotAfter→before : (a b : ScheduleEvent) → NotAfter a b → event_before b a ≡ false
unfolding event_before
NotAfter→before a b h = ground arith

NotAfter-trans : (a b c : ScheduleEvent) → NotAfter a b → NotAfter b c → NotAfter a c
NotAfter-trans a b c (inl h) (inl k) = inl (omega arith)
NotAfter-trans a b c (inl h) (inr k) = inl (omega arith)
NotAfter-trans a b c (inr h) (inl k) = inl (omega arith)
NotAfter-trans a b c (inr h) (inr k) = inr (omega arith)

pub event_order : StrictWeak event_before
event_order = record {
  asymm = event_asymm;
  le_trans = λ a b c h k.
      NotAfter→before a c (NotAfter-trans a b c (before→NotAfter a b h) (before→NotAfter b c k));
}

pub not_earlier : (a b : ScheduleEvent) → event_before b a ≡ false → a.frame ≤ℤ b.frame
unfolding event_before
not_earlier a b h = ground arith

-- no event is after the last one
back_frame-ge :
    (l : ℤ) (es : List ScheduleEvent)
    → is_sorted event_before es ≡ true
    → All (λ e. e.frame ≤ℤ back_frame l es) es
back_frame-ge l [] h = tt
back_frame-ge l (e ∷ es) h =
    (last e es h, back_frame-ge e.frame es (is_sorted-tail event_order e es h))
  where
    last :
        (e : ScheduleEvent) (es : List ScheduleEvent)
        → is_sorted event_before (e ∷ es) ≡ true
        → e.frame ≤ℤ back_frame e.frame es
    last e [] h = omega arith
    last e (f ∷ es) h = omega (
      arith,
      not_earlier e f (head_first event_order e (f ∷ es) h).0,
      last f es (is_sorted-tail event_order e (f ∷ es) h),
    )

-- of events that end with one, the length is its frame
back_frame-append :
    (l : ℤ) (front : List ScheduleEvent) (e : ScheduleEvent)
    → back_frame l (front ++ e ∷ []) ≡ e.frame
back_frame-append l [] e = refl
back_frame-append l (f ∷ front) e = back_frame-append f.frame front e

-- What `build` publishes: the events of the builder, each as often, in the order of their frames; at
-- one frame those with the higher code of type first, so a note-off before a note-on; and events of
-- one frame and one type in the order in which they were added. The length is the builder's where that is
-- positive. Else it is the frame of the last event, and no event is after it; without events it is the
-- builder's.
pub build_lem :
    (b : ScheduleBuilder) (rate generation : ℕ)
    → let s = build b rate generation in
      Perm s.events b.events
      × (is_sorted event_before s.events ≡ true)
      × ((e : ScheduleEvent)
          → keep_if (equivalent event_order e) s.events
            ≡ keep_if (equivalent event_order e) b.events)
      × ((pos 0 <ℤ b.length_frames → s.length_frames ≡ b.length_frames)
          × (b.length_frames ≤ℤ pos 0
              → All (λ e. e.frame ≤ℤ s.length_frames) s.events
                × ((front : List ScheduleEvent) (e : ScheduleEvent)
                    → s.events ≡ front ++ e ∷ []
                    → s.length_frames ≡ e.frame)
                × (s.events ≡ [] → s.length_frames ≡ b.length_frames)))
unfolding build
build_lem b rate generation = (
  stable_sort-perm event_before b.events,
  stable_sort-is_sorted event_order b.events,
  λ e. keep_if-stable_sort event_order e b.events,
  (
    λ h. ground arith,
    λ h.
        let e : leb_ℤ b.length_frames (pos 0) ≡ true = ground arith in
        let sorted = stable_sort event_before b.events in
        rw e (
          back_frame-ge b.length_frames sorted (stable_sort-is_sorted event_order b.events),
          λ front last same.
              ap (back_frame b.length_frames) same ∙ back_frame-append b.length_frames front last,
          λ same. ap (back_frame b.length_frames) same,
        ),
  ),
)
