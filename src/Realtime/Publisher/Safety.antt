-- ===== src/Realtime/Publisher/Safety.antt =====
-- Reading and reclamation, in every order of steps.
use onebeat.Prelude.{In, ℕ, ◌+◌, ◌^◌, ◌<◌, ◌≡◌, true, List, [], ◌∷◌, some, All, inl, inr, arith}
use onebeat.Realtime.Publisher.{inside, System, Reach, start, later}
use onebeat.Realtime.Publisher.Invariant.{Gone, Inv}
use onebeat.Realtime.Publisher.Steps.{Step-Inv}

Reach-Inv : {s : System} {n : ℕ} → Reach true n s → n + 3 < 2 ^ 64 → Inv s n
Reach-Inv start h = record {
  epochs = omega arith;
  reading = λ p m. absurd m;
  published = λ p q. absurd (cc);
  writing = λ i. tt;
  waiting = tt;
  leaving = tt;
  freed = tt;
  silent = λ q. absurd (cc);
  noted = tt;
}
Reach-Inv (later r st) h = Step-Inv st (Reach-Inv r (omega arith)) (omega arith)

All-In : (P : ℕ → Type 0) (xs : List ℕ) (p : ℕ) → All P xs → In p xs → P p
All-In P [] p h m = absurd m
All-In P (x ∷ xs) p h m = elim m [ inl e ↦ rw e (h.0) | inr beyond ↦ All-In P xs p h.1 beyond ]

-- Where no block begins while a collection trusts that nothing renders, the audio thread never reads
-- an object that has been freed, and the object that it would load next has not been freed: in every
-- state that fewer than 2^64 - 3 steps of any number of publishing threads, of the audio thread and of
-- the collector lead to, in any order.
pub no_use_after_free :
    {n : ℕ} {s : System}
    → Reach true n s
    → n + 3 < 2 ^ 64
    → ((held : List ℕ) (p : ℕ) → s.audio ≡ inside held → In p held → ¬ In p s.deleted)
      × ((p : ℕ) → s.current ≡ some p → ¬ In p s.deleted)
no_use_after_free {s} r small = (λ held p e m d. (gone p d).2 (rw e m), λ p e d. (gone p d).1 e)
  where
    gone : (p : ℕ) → In p s.deleted → Gone s p
    gone p d = All-In (Gone s) s.deleted p (Reach-Inv r small).freed d
