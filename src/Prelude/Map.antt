-- ===== src/Prelude/Map.antt =====
-- `std::map`: entries in the order of their keys, one for each key.
pub mod Ordered
pub mod Keys
pub mod Inverse
use mathlib.Core.Path.{◌≡◌, refl}
use mathlib.Core.Logic.{◌↔◌}
use mathlib.Core.Bool.{Bool, true, false}
use mathlib.Core.Option.{Option, none, some}
use mathlib.Core.List.{List, [], ◌∷◌}
use native.Mathlib.Omega.{arith}
use onebeat.Prelude.Tests.{if◌then◌else◌, is_some}

-- A key type: its `==` and its `<`.
pub record Key (K : Type 0) : Type 0 where
  pub keq : K → K → Bool
  pub klt : K → K → Bool
  pub keq_iff : (a b : K) → (keq a b ≡ true) ↔ (a ≡ b)
  pub klt_irrefl : (a : K) → klt a a ≡ false
  pub klt_trans : (a b c : K) → klt a b ≡ true → klt b c ≡ true → klt a c ≡ true
  pub klt_total : (a b : K) → klt a b ≡ false → keq a b ≡ false → klt b a ≡ true

abbrev pub Map : Type 0 → Type 0 → Type 0
Map K V = List (K × V)

module _ {K V : Type 0} ⦃o : Key K⦄ where
  unfoldable pub find : K → Map K V → Option V
  find k [] = none
  find k ((j, v) ∷ m) = if o.keq j k then some v else find k m

  -- `emplace`: nothing is overwritten
  pub emplace : K → V → Map K V → Map K V
  emplace k v [] = (k, v) ∷ []
  emplace k v ((j, w) ∷ m) =
      let rest = emplace k v m in
      if o.keq j k then (j, w) ∷ m else if o.klt k j then (k, v) ∷ (j, w) ∷ m else (j, w) ∷ rest

  -- `m[k] = v`
  pub assign : K → V → Map K V → Map K V
  assign k v [] = (k, v) ∷ []
  assign k v ((j, w) ∷ m) =
      let rest = assign k v m in
      if o.keq j k then (j, v) ∷ m else if o.klt k j then (k, v) ∷ (j, w) ∷ m else (j, w) ∷ rest

  unfoldable pub erase : K → Map K V → Map K V
  erase k [] = []
  erase k ((j, w) ∷ m) = let rest = erase k m in if o.keq j k then rest else (j, w) ∷ rest

  -- a write through an iterator to the entry of `k`
  pub adjust : K → (V → V) → Map K V → Map K V
  adjust k f [] = []
  adjust k f ((j, w) ∷ m) =
      let rest = adjust k f m in if o.keq j k then (j, f w) ∷ m else (j, w) ∷ rest

  -- a loop that may write to every entry
  pub map_entries : (K → V → V) → Map K V → Map K V
  map_entries f [] = []
  map_entries f ((j, w) ∷ m) = (j, f j w) ∷ map_entries f m

  -- a loop that collects the keys of the entries that pass a test
  pub keys_where : (K → V → Bool) → Map K V → List K
  keys_where p [] = []
  keys_where p ((j, w) ∷ m) = let rest = keys_where p m in if p j w then j ∷ rest else rest

  abbrev pub has : K → Map K V → Bool
  has k m = is_some (find k m)

  pub find-erase :
      (k j : K) (m : Map K V) → find j (erase k m) ≡ (if o.keq k j then none else find j m)
  unfolding find erase
  find-erase k j [] = ground arith
  find-erase k j ((i, w) ∷ m) =
      ground (arith, find-erase k j m, o.keq_iff i k, o.keq_iff i j, o.keq_iff k j)

  pub find-emplace :
      (k j : K) (v : V) (m : Map K V)
      → find k m ≡ none
      → find j (emplace k v m) ≡ (if o.keq k j then some v else find j m)
  unfolding find emplace
  find-emplace k j v [] h = refl
  find-emplace k j v ((i, w) ∷ m) h =
      ground (arith, find-emplace k j v m, o.keq_iff i k, o.keq_iff i j, o.keq_iff k j)

  pub find-map_entries :
      (f : K → V → V) (j : K) (m : Map K V)
      → find j (map_entries f m) ≡ elim (find j m) [ none ↦ none | some v ↦ some (f j v) ]
  unfolding find map_entries
  find-map_entries f j [] = refl
  find-map_entries f j ((i, w) ∷ m) = ground (arith, find-map_entries f j m, o.keq_iff i j)

  pub find-adjust :
      (k j : K) (f : V → V) (m : Map K V)
      → find j (adjust k f m)
        ≡ (if o.keq k j then elim (find j m) [ none ↦ none | some v ↦ some (f v) ] else find j m)
  unfolding find adjust
  find-adjust k j f [] = ground arith
  find-adjust k j f ((i, w) ∷ m) =
      ground (arith, find-adjust k j f m, o.keq_iff i k, o.keq_iff i j, o.keq_iff k j)

  pub find-assign :
      (k j : K) (v : V) (m : Map K V)
      → find j (assign k v m) ≡ (if o.keq k j then some v else find j m)
  unfolding find assign
  find-assign k j v [] = refl
  find-assign k j v ((i, w) ∷ m) =
      ground (arith, find-assign k j v m, o.keq_iff i k, o.keq_iff i j, o.keq_iff k j)
