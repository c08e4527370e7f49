-- ===== src/Realtime/Publisher/Reclaim.antt =====
-- What one call of `collect` frees, in engine/src/core/rt/publisher.h.
use onebeat.Prelude.{
  In, ℕ, suc, ◌+◌, ◌^◌, ◌≤◌, ◌<◌, ◌≡◌, refl, sym, ap, Bool, true, false, List, [], ◌∷◌, inl, inr,
  ◌⊎◌, Bool-cases, arith, ◌++◌,
}
use onebeat.Realtime.Publisher.{
  Retired, outside, resting, System, ask, load_epoch, sweep, free, Step, doomed, kept, is_doomed,
}

-- The object is on the list with an epoch.
abbrev pub Awaits : ℕ → ℕ → List Retired → Type 0
Awaits p e [] = ⊥
Awaits p e (r ∷ rs) = ((p ≡ r.object) × (e ≡ r.epoch)) ⊎ Awaits p e rs

In-doomed :
    (running : Bool) (epoch p e : ℕ) (rs : List Retired)
    → Awaits p e rs
    → is_doomed running epoch (record { object = p; epoch = e }) ≡ true
    → In p (doomed running epoch rs)
unfolding doomed
In-doomed running epoch p e [] w d = absurd w
In-doomed running epoch p e (r ∷ rs) w d = elim (Bool-cases (is_doomed running epoch r)) [
  | inl out ↦ rw out (elim w [
    | inl here ↦ inl here.0
    | inr beyond ↦ inr (In-doomed running epoch p e rs beyond d)
  ])
  | inr stays ↦ elim w [
    | inl here ↦ absurd (ground (arith, here, stays, d))
    | inr beyond ↦ rw stays (In-doomed running epoch p e rs beyond d)
  ]
]

Awaits-kept :
    (running : Bool) (epoch p e : ℕ) (rs : List Retired)
    → Awaits p e (kept running epoch rs)
    → is_doomed running epoch (record { object = p; epoch = e }) ≡ false
unfolding kept
Awaits-kept running epoch p e [] w = absurd w
Awaits-kept running epoch p e (r ∷ rs) w = elim (Bool-cases (is_doomed running epoch r)) [
  | inl out ↦ Awaits-kept running epoch p e rs (rw out at w)
  | inr stays ↦ elim (let w' : Awaits p e (r ∷ kept running epoch rs) = rw stays at w in w') [
    | inl here ↦ ground (arith, here, stays)
    | inr beyond ↦ Awaits-kept running epoch p e rs beyond
  ]
]

Awaits-kept_young :
    (running : Bool) (epoch p e : ℕ) (rs : List Retired)
    → Awaits p e rs
    → is_doomed running epoch (record { object = p; epoch = e }) ≡ false
    → Awaits p e (kept running epoch rs)
unfolding kept
Awaits-kept_young running epoch p e [] w d = absurd w
Awaits-kept_young running epoch p e (r ∷ rs) w d = elim (Bool-cases (is_doomed running epoch r)) [
  | inl out ↦ rw out (elim w [
    | inl here ↦ absurd (ground (arith, here, out, d))
    | inr beyond ↦ Awaits-kept_young running epoch p e rs beyond d
  ])
  | inr stays ↦ rw stays (elim w [
    | inl here ↦ inl here
    | inr beyond ↦ inr (Awaits-kept_young running epoch p e rs beyond d)
  ])
]

In-append_left : (p : ℕ) (xs ys : List ℕ) → In p xs → In p (xs ++ ys)
In-append_left p [] ys m = absurd m
In-append_left p (x ∷ xs) ys m = elim m [
  | inl e ↦ inl e
  | inr beyond ↦ inr (In-append_left p xs ys beyond)
]

module _ (guarded running : Bool) (s : System) where
  -- a whole call of `collect`, with no step of another thread between
  abbrev pub collected : System
  collected = record s {
    retired = kept running s.rt_epoch s.retired;
    deleted = doomed running s.rt_epoch s.retired ++ s.deleted;
    collector = resting;
  }

-- The states that a number of steps leads to from a given one.
pub data Leads (guarded : Bool) (s : System) : ℕ → System → Type 0 where
  here : Leads guarded s 0 s
  onward :
      {n : ℕ} {t u : System} → Leads guarded s n t → Step guarded t u → Leads guarded s (suc n) u

-- A whole call of `collect`, between whose four steps no other thread comes, from any state where the
-- collector rests, with the caller's claim that nothing runs made only where no block is open. It changes
-- the list and what has been freed, and nothing else. Each object that was on the list, with an epoch less
-- than 2 ^ 64 - 2, is then freed and off the list where the call claims that nothing runs or the object is
-- two epochs old, and still on it otherwise.
pub collect_frees :
    (guarded running : Bool) (s : System)
    → s.collector ≡ resting
    → (running ≡ false → s.audio ≡ outside)
    → (t : System) × Leads guarded s 4 t
      × (t ≡ record s { retired = t.retired; deleted = t.deleted })
      × ((p e : ℕ)
          → Awaits p e s.retired
          → e + 2 < 2 ^ 64
          → ((running ≡ false) ⊎ (e + 2 ≤ s.rt_epoch))
          → In p t.deleted × ¬ Awaits p e t.retired)
      × ((p e : ℕ)
          → Awaits p e s.retired
          → running ≡ true
          → e + 2 < 2 ^ 64
          → s.rt_epoch < e + 2
          → Awaits p e t.retired)
collect_frees guarded running s rest still = (
  collected guarded running s,
  onward (onward (onward (onward here (ask running rest still)) (load_epoch refl)) (sweep refl))
      (free refl),
  ap (λ c. record (collected guarded running s) { collector = c }) (sym rest),
  λ p e w small old.
      let d : is_doomed running s.rt_epoch (record { object = p; epoch = e }) ≡ true =
        ground arith in
      (
        In-append_left p _ s.deleted (In-doomed running s.rt_epoch p e s.retired w d),
        λ k. ground (arith, Awaits-kept running s.rt_epoch p e s.retired k, d),
      ),
  λ p e w run small young. Awaits-kept_young running s.rt_epoch p e s.retired w (ground arith),
)
