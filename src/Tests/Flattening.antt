-- ===== src/Tests/Flattening.antt =====
-- The flattener on the project of the tests and on single notes.
use mathlib.Core.List.{Mem}
use onebeat.Prelude.{
  ℕ, ◌+◌, ◌*◌, ◌<◌, ◌≡◌, refl, arith, true, false, List, [], ◌∷◌, some, All, any, get_elem?,
}
use onebeat.Prelude.Int.{pos, negsuc, ◌+ℤ◌, ◌-ℤ◌, ◌<ℤ◌}
use onebeat.Prelude.Sorting.{is_sorted, stable_sort, stable_sort-perm, stable_sort-is_sorted}
use onebeat.Notes.{Note}
use onebeat.Entities.{Clip}
use onebeat.Project.Create.{default_transforms}
use onebeat.Schedule.{event_before}
use onebeat.Flatten.{
  ResolvedNote, Occurrence, laps, wrap, cut_all, collect_occurrences, note_before, resolve_overlaps,
}
use onebeat.Flatten.Order.{note_order}
use onebeat.Flatten.Laps.{lap, own_lap, collect_occurrences_lem}
use onebeat.Flatten.Laps.Inside.{InClip, collect_occurrences-InClip}
use onebeat.Flatten.Overlaps.{NoOverlap, cut_from, same_onset}
use onebeat.Flatten.Overlaps.Survive.{resolve_overlaps_lem}
use onebeat.Flatten.Resolve.{Floats}
use onebeat.Flatten.Resolve.Sound.{sizes_of}
use onebeat.Flatten.Emit.{Sorts, FlattenResult, param_before, effect_param_before, flatten}
use onebeat.Flatten.Emit.Order.{param_order, effect_param_order}
use onebeat.Flatten.Emit.Events.{AreSorts, event_addressed, is_ended}
use onebeat.Flatten.Emit.Events.Whole.{flatten_lem}
use onebeat.Tests.Data.{note, placed_clip, sample}
use onebeat.Tests.Playback.{whole}

-- a clip of two and a half laps of a pattern of 1,000 ticks, from tick 300 on
abbrev looped : Clip
looped = record placed_clip {
  length = pos 2500;
  transforms = record default_transforms { loop = true; window_start = pos 300 };
}

abbrev late : Note
late = note 900 60

two_laps :
    collect_occurrences late looped (pos 1000)
    ≡ some (
        record { start = pos 600; end = pos 700 }
        ∷ record { start = pos 1600; end = pos 1700 }
        ∷ [])
unfolding collect_occurrences laps wrap ◌+ℤ◌ ◌-ℤ◌
two_laps = refl

collect_occurrences_lem_example :
    (looped.transforms.loop ≡ false
      → collect_occurrences late looped (pos 1000) ≡ some (own_lap late looped (pos 1000)))
    × (looped.transforms.loop ≡ true
        → (first : ℕ) × (a : ℕ) × (b : ℕ) × (os : List Occurrence) × (first < 1000)
          × (late.start +ℤ pos (a * 1000)
              ≡ looped.transforms.window_start +ℤ pos (first + b * 1000))
          × (collect_occurrences late looped (pos 1000) ≡ some os)
          × ((k : ℕ) → get_elem? os k ≡ lap late looped (pos 1000) (pos (first + k * 1000))))
collect_occurrences_lem_example =
    collect_occurrences_lem late looped 1000 (omega arith) (omega arith) (omega arith)

collect_occurrences-InClip_example :
    (os : List Occurrence) × (collect_occurrences late looped (pos 1000) ≡ some os)
    × All (InClip looped) os
collect_occurrences-InClip_example = collect_occurrences-InClip late looped (pos 1000)

-- A note that its channel's shift moves before the pattern sounds across the end of a lap.
abbrev early : Note
early = record { start = negsuc 9; length = pos 240; key = pos 60; velocity = 100 }

across_a_lap :
    collect_occurrences early
      (record looped { transforms = record default_transforms { loop = true } })
      (pos 1000)
    ≡ some (
        record { start = pos 990; end = pos 1230 }
        ∷ record { start = pos 1990; end = pos 2230 }
        ∷ [])
unfolding collect_occurrences laps wrap ◌+ℤ◌ ◌-ℤ◌
across_a_lap = refl

abbrev resolved : ℕ → ℕ → ResolvedNote
resolved start end = record {
  start = pos start;
  end = pos end;
  instrument = 0;
  key = pos 60;
  velocity = 1;
}

abbrev stacked : List ResolvedNote
stacked = resolved 10 20 ∷ resolved 0 100 ∷ resolved 0 50 ∷ []

cut_short : resolve_overlaps (stable_sort note_before) stacked ≡ resolved 0 10 ∷ resolved 10 20 ∷ []
unfolding resolve_overlaps cut_all note_before stable_sort
cut_short = refl

resolve_overlaps_lem_example :
    let out = resolve_overlaps (stable_sort note_before) stacked in
    All (λ n. n.start <ℤ n.end) out
    × NoOverlap out
    × ((m : ResolvedNote) → Mem m out → any (cut_from m) stacked ≡ true)
    × ((n : ResolvedNote) → Mem n stacked → n.start <ℤ n.end → any (same_onset n) out ≡ true)
resolve_overlaps_lem_example =
    resolve_overlaps_lem (stable_sort note_before) stacked
      (λ ns. (stable_sort-perm note_before ns, stable_sort-is_sorted note_order ns))

abbrev stable_sorts : Sorts
stable_sorts = record {
  notes = stable_sort note_before;
  params = stable_sort param_before;
  effect_params = stable_sort effect_param_before;
}

stable_sorts-AreSorts : AreSorts stable_sorts
stable_sorts-AreSorts = record {
  notes = λ ns. (stable_sort-perm note_before ns, stable_sort-is_sorted note_order ns);
  params = λ qs. (stable_sort-perm param_before qs, stable_sort-is_sorted param_order qs);
  effect_params =
      λ qs. (stable_sort-perm effect_param_before qs, stable_sort-is_sorted effect_param_order qs);
}

abbrev plain : Floats whole
plain = record {
  of_bits = λ b. pos 120;
  float_of_int = λ n. n;
  float_div = λ a b. 1;
  float_mul = λ a b. 1;
  float_lt = λ a b. false;
}

flatten_lem_example :
    (r : FlattenResult) × (flatten whole plain stable_sorts sample 48000 1 ≡ some r)
    × (is_sorted event_before r.schedule.events ≡ true)
    × All (λ e. event_addressed (sizes_of sample) e ≡ true) r.schedule.events
    × All (λ e. is_ended r.schedule.events e ≡ true) r.schedule.events
flatten_lem_example = flatten_lem whole plain stable_sorts sample 48000 1 stable_sorts-AreSorts
