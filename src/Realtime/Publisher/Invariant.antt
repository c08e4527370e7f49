-- ===== src/Realtime/Publisher/Invariant.antt =====
-- Who may still hold an object, and until which epoch, at every step.
use onebeat.Prelude.{
  In, ℕ, ◌≤◌, ◌<◌, ◌≡◌, ◌≢◌, true, List, [], none, some, ◌⊎◌, inl, inr, All, All-map_pred, ◌==◌,
  Bool-cases, arith,
}
use onebeat.Realtime.Publisher.{
  Retired, Audio, outside, inside, Writer, idle, exchanged, counted, stamped, Collector, resting,
  asked, loaded, freeing, System, update, trusts_silence,
}

abbrev pub held : Audio → List ℕ
held outside = []
held (inside ps) = ps

abbrev pub condemned : Collector → List ℕ
condemned (freeing ps) = ps
condemned _ = []

module _ (s : System) where
  -- an object that the audio thread can no longer load
  abbrev pub Superseded : ℕ → Type 0
  Superseded p = (p < s.fresh) × (s.current ≢ some p)

  -- one that it holds at most in the block that was under way at the epoch
  abbrev pub Ageing : ℕ → ℕ → Type 0
  Ageing p e =
      (p < s.fresh)
      × (s.current ≢ some p)
      × (e ≤ s.rt_epoch)
      × (In p (held s.audio) → s.rt_epoch ≤ e)

  -- one that it neither holds nor can load
  abbrev pub Gone : ℕ → Type 0
  Gone p = (p < s.fresh) × (s.current ≢ some p) × ¬ In p (held s.audio)

  abbrev pub Carried : Writer → Type 0
  Carried idle = Unit
  Carried (exchanged none) = Unit
  Carried (exchanged (some p)) = Superseded p
  Carried (counted p) = Superseded p
  Carried (stamped p e) = Ageing p e

  abbrev pub Loaded : Collector → Type 0
  Loaded (loaded rt_running e) = e ≤ s.rt_epoch
  Loaded _ = Unit

  pub record Inv (bound : ℕ) : Type 0 where
    pub epochs : s.rt_epoch ≤ bound
    pub reading : (p : ℕ) → In p (held s.audio) → p < s.fresh
    pub published : (p : ℕ) → s.current ≡ some p → p < s.fresh
    pub writing : (i : ℕ) → Carried (s.writers i)
    pub waiting : All (λ r. Ageing r.object r.epoch) s.retired
    pub leaving : All Gone (condemned s.collector)
    pub freed : All Gone s.deleted
    pub silent : trusts_silence s.collector ≡ true → s.audio ≡ outside
    pub noted : Loaded s.collector

-- What a step may do to what an object can be seen through.
pub record Evolves (s t : System) : Type 0 where
  pub made : s.fresh ≤ t.fresh
  pub shown : (p : ℕ) → p < s.fresh → t.current ≡ some p → s.current ≡ some p
  pub grasped : (p : ℕ) → In p (held t.audio) → In p (held s.audio) ⊎ (s.current ≡ some p)
  pub ticked : s.rt_epoch ≤ t.rt_epoch
  pub steady : (p : ℕ) → In p (held t.audio) → t.rt_epoch ≡ s.rt_epoch

module _ {s t : System} (v : Evolves s t) where
  pub Superseded-evolves : (p : ℕ) → Superseded s p → Superseded t p
  Superseded-evolves p h = (omega (arith, v.made), λ e. h.1 (v.shown p h.0 e))

  pub Ageing-evolves : (p e : ℕ) → Ageing s p e → Ageing t p e
  Ageing-evolves p e h = (
    omega (arith, v.made),
    λ q. h.1 (v.shown p h.0 q),
    omega (arith, v.ticked),
    λ m. elim (v.grasped p m) [
      | inl old ↦ omega (arith, v.steady p m, h.3 old)
      | inr new ↦ absurd (h.1 new)
    ],
  )

  pub Gone-evolves : (p : ℕ) → Gone s p → Gone t p
  Gone-evolves p h = (
    omega (arith, v.made),
    λ e. h.1 (v.shown p h.0 e),
    λ m. elim (v.grasped p m) [ inl old ↦ h.2 old | inr new ↦ h.1 new ],
  )

  pub Carried-evolves : (w : Writer) → Carried s w → Carried t w
  Carried-evolves idle h = tt
  Carried-evolves (exchanged none) h = tt
  Carried-evolves (exchanged (some p)) h = Superseded-evolves p h
  Carried-evolves (counted p) h = Superseded-evolves p h
  Carried-evolves (stamped p e) h = Ageing-evolves p e h

  pub Waiting-evolves :
      (rs : List Retired)
      → All (λ r. Ageing s r.object r.epoch) rs
      → All (λ r. Ageing t r.object r.epoch) rs
  Waiting-evolves rs h = All-map_pred _ _ rs (λ r. Ageing-evolves r.object r.epoch) h

  pub All_Gone-evolves : (ps : List ℕ) → All (Gone s) ps → All (Gone t) ps
  All_Gone-evolves ps h = All-map_pred _ _ ps Gone-evolves h

  pub Loaded-evolves : (c : Collector) → Loaded s c → Loaded t c
  Loaded-evolves (loaded r e) h = omega (arith, v.ticked)
  Loaded-evolves resting h = tt
  Loaded-evolves (asked r) h = tt
  Loaded-evolves (freeing ps) h = tt

  -- one writer moves
  pub update-Carried :
      (i : ℕ) (w : Writer)
      → ((j : ℕ) → Carried s (s.writers j))
      → Carried t w
      → (j : ℕ) → Carried t (update s.writers i w j)
  update-Carried i w h c j = elim (Bool-cases (i == j)) [
    | inl e ↦ rw e c
    | inr e ↦ rw e (Carried-evolves (s.writers j) (h j))
  ]
