-- ===== src/Prelude/Map/Keys.antt =====
-- What a loop that collects keys has found.
use mathlib.Core.Path.{◌≡◌, refl, subst}
use mathlib.Core.Logic.{inl, inr}
use mathlib.Core.Bool.{Bool, true, false}
use mathlib.Core.Option.{Option, none, some}
use mathlib.Core.List.{[], ◌∷◌}
use native.Mathlib.Omega.{arith}
use onebeat.Prelude.Tests.{is_some, Option-cases, Bool-cases}
use onebeat.Prelude.Lists.{any}
use onebeat.Prelude.Map.{Key, Map, find, keys_where}
use onebeat.Prelude.Map.Ordered.{IsOrdered, find-Above}

-- The entry of a key, changed where there is one.
abbrev pub over {ℓ} : {A : Type ℓ} → (A → A) → Option A → Option A
over f none = none
over f (some a) = some (f a)

module _ {K V : Type 0} ⦃o : Key K⦄ where
  -- the test at the entry of a key; `false` where there is none
  abbrev pub holds : (K → V → Bool) → K → Option V → Bool
  holds p k none = false
  holds p k (some v) = p k v

  pub mem-keys_where :
      (p : K → V → Bool) (k : K) (m : Map K V)
      → IsOrdered m
      → any (λ i. o.keq i k) (keys_where p m) ≡ holds p k (find k m)
  unfolding keys_where find
  mem-keys_where p k [] a = refl
  mem-keys_where p k ((j, w) ∷ m) a =
      ground (arith, mem-keys_where p k m a.1, find-Above j m a.0, o.keq_iff j k)

  -- The entry of a key that is there.
  pub has-some : (k : K) (m : Map K V) → is_some (find k m) ≡ true → (v : V) × (find k m ≡ some v)
  has-some k m h = elim (Option-cases (find k m)) [ inl e ↦ absurd (ground arith) | inr s ↦ s ]

  -- A predicate at every entry.
  abbrev pub Entrywise {ℓ} : (K → V → Type ℓ) → Map K V → Type ℓ
  Entrywise P [] = Unit
  Entrywise P ((k, v) ∷ m) = P k v × Entrywise P m

  pub found {ℓ} :
      (P : K → V → Type ℓ) (m : Map K V)
      → Entrywise P m
      → (k : K) (v : V) → find k m ≡ some v
      → P k v
  unfolding find
  found P [] a k v e = absurd (ground arith)
  found P ((j, w) ∷ m) a k v e = elim (Bool-cases (o.keq j k)) [
    | inl h ↦
        let same : w ≡ v = ground arith in
        subst (λ i. P i v) ((o.keq_iff j k).0 h) (subst (P j) same a.0)
    | inr h ↦ found P m a.1 k v (ground arith)
  ]
