-- ===== src/Tests/Publishing.antt =====
-- Publishing, on concrete interleavings: a safe one, and one that shows what the guard is for.
use onebeat.Prelude.{
  In, ℕ, suc, ◌+◌, ◌^◌, ◌≤◌, ◌<◌, ◌≡◌, refl, arith, ◌⊎◌, Bool, true, false, List, [], ◌∷◌, some,
}
use onebeat.Realtime.Publisher.{
  inside, System, init, Step, begin_block, acquire, end_block, exchange, count, stamp, retire, ask,
  load_epoch, sweep, free, Reach, start, later, doomed,
}
use onebeat.Realtime.Publisher.Safety.{no_use_after_free}
use onebeat.Realtime.Publisher.Reclaim.{Awaits, Leads, collect_frees}

record Run (guarded : Bool) : Type 0 where
  steps : ℕ
  last : System
  reach : Reach guarded steps last

false≢true : {A : Type 0} → false ≡ true → A
false≢true q = cc

true≢false : {A : Type 0} → true ≡ false → A
true≢false q = cc

abbrev begun : {guarded : Bool} → Run guarded
begun = record { steps = 0; last = init; reach = start }

abbrev go : {guarded : Bool} (r : Run guarded) {t : System} → Step guarded r.last t → Run guarded
go r {t} st = record { steps = suc r.steps; last = t; reach = later r.reach st }

-- the first object is published, and a block reads it
abbrev reading_first : {guarded : Bool} → Run guarded
reading_first =
    go (go (go (go begun (exchange 0 refl)) (count 0 refl)) (begin_block refl (λ q. refl)))
      (acquire refl)

-- the second takes its place while the block is under way
abbrev superseded : Run true
superseded =
    go (go (go (go reading_first (exchange 0 refl)) (count 0 refl)) (stamp 0 refl)) (retire 0 refl)

-- two blocks later
abbrev aged : Run true
aged =
    go
      (go (go (go (go superseded (end_block refl)) (begin_block refl (λ q. refl))) (end_block refl))
        (begin_block refl (λ q. refl)))
      (acquire refl)

collect_frees_example :
    (t : System) × Leads true aged.last 4 t
    × (t ≡ record aged.last { retired = t.retired; deleted = t.deleted })
    × ((p e : ℕ)
        → Awaits p e (record { object = 0; epoch = 1 } ∷ [])
        → e + 2 < 2 ^ 64
        → ((true ≡ false) ⊎ (e + 2 ≤ 3))
        → In p t.deleted × ¬ Awaits p e t.retired)
    × ((p e : ℕ)
        → Awaits p e (record { object = 0; epoch = 1 } ∷ [])
        → ◌≡◌ {A = Bool} true true
        → e + 2 < 2 ^ 64
        → 3 < e + 2
        → Awaits p e t.retired)
collect_frees_example = collect_frees true true aged.last refl (λ q. cc)

abbrev collected : Run true
collected =
    go (go (go (go aged (ask true refl (λ q. true≢false q))) (load_epoch refl)) (sweep refl))
      (free refl)

deleted-collected : (collected.last.deleted ≡ 0 ∷ []) × (collected.last.audio ≡ inside (1 ∷ []))
unfolding doomed
deleted-collected = (refl, refl)

no_use_after_free_example :
    ((held : List ℕ) (p : ℕ)
      → inside (1 ∷ []) ≡ inside held
      → In p held
      → ¬ In p collected.last.deleted)
    × ((p : ℕ) → some 1 ≡ some p → ¬ In p collected.last.deleted)
no_use_after_free_example = no_use_after_free collected.reach (omega arith)

-- A collection that was told that nothing renders, with a block that begins before it sweeps the list:
-- the block's object is superseded, retired and freed under it.
abbrev quiet_asked : Run false
quiet_asked = go (go (go begun (exchange 0 refl)) (count 0 refl)) (ask false refl (λ q. refl))

abbrev rendering : Run false
rendering = go (go quiet_asked (begin_block refl (λ q. false≢true q))) (acquire refl)

abbrev swapped : Run false
swapped =
    go (go (go (go rendering (exchange 0 refl)) (count 0 refl)) (stamp 0 refl)) (retire 0 refl)

abbrev raced : Run false
raced = go (go (go swapped (load_epoch refl)) (sweep refl)) (free refl)

freed_while_read : (raced.last.audio ≡ inside (0 ∷ [])) × (raced.last.deleted ≡ 0 ∷ [])
unfolding doomed
freed_while_read = (refl, refl)
