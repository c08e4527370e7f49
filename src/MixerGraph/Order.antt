-- ===== src/MixerGraph/Order.antt =====
-- Render orders and feedback, as relations on a routing: what `finalise` is about.
use onebeat.Prelude.{In, ℕ, ◌≡◌, List, [], ◌∷◌, Option, some, inl, inr}

module _ (target : ℕ → Option ℕ) where
  -- No node comes twice, and what a node feeds comes after it.
  abbrev pub Ordered : List ℕ → Type 0
  Ordered [] = Unit
  Ordered (x ∷ xs) = ((o : ℕ) → target x ≡ some o → In o xs) × ¬ In x xs × Ordered xs

  -- The signal of the first node reaches the second.
  pub data Feeds (i : ℕ) : ℕ → Type 0 where
    direct : {j : ℕ} → target i ≡ some j → Feeds i j
    through : {k j : ℕ} → Feeds i k → target k ≡ some j → Feeds i j

  -- In a render order, what an entry feeds is an entry.
  pub Ordered-closed : (xs : List ℕ) (i o : ℕ) → Ordered xs → In i xs → target i ≡ some o → In o xs
  Ordered-closed [] i o s m e = absurd m
  Ordered-closed (x ∷ xs) i o s m e = elim m [
    | inl here ↦ inr (s.0 o (rw (← here) e))
    | inr later ↦ inr (Ordered-closed xs i o s.2 later e)
  ]

  pub Ordered-Feeds : (x : ℕ) (xs : List ℕ) {o : ℕ} → Ordered (x ∷ xs) → Feeds x o → In o xs
  Ordered-Feeds x xs s (direct e) = s.0 _ e
  Ordered-Feeds x xs {o} s (through {k} f e) = Ordered-closed xs k o s.2 (Ordered-Feeds x xs s f) e

  pub Ordered-acyclic : (xs : List ℕ) (i : ℕ) → Ordered xs → In i xs → ¬ Feeds i i
  Ordered-acyclic [] i s m f = m
  Ordered-acyclic (x ∷ xs) i s m f = elim m [
    | inl here ↦ s.1 (Ordered-Feeds x xs s (rw (← here) (f)))
    | inr later ↦ Ordered-acyclic xs i s.2 later f
  ]
