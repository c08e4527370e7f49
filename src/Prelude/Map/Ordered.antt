-- ===== src/Prelude/Map/Ordered.antt =====
-- The order of the keys of a map.
use mathlib.Core.Path.{◌≡◌, refl, sym, ◌∙◌, subst}
use mathlib.Core.Logic.{inl, inr}
use mathlib.Core.Bool.{true, false}
use mathlib.Core.Option.{none}
use mathlib.Core.List.{[], ◌∷◌}
use native.Mathlib.Omega.{arith}
use onebeat.Prelude.Tests.{Bool-cases}
use onebeat.Prelude.Map.{Key, Map, find, emplace, assign, erase, adjust, map_entries}

pub keq_self : {K : Type 0} (o : Key K) (k : K) → o.keq k k ≡ true
keq_self o k = (o.keq_iff k k).1 refl

lt_ne : {K : Type 0} (o : Key K) (k j : K) → o.klt k j ≡ true → o.keq j k ≡ false
lt_ne o k j h = ground (arith, o.keq_iff j k, o.klt_irrefl k)

module _ {K V : Type 0} ⦃o : Key K⦄ where
  -- every key of the map comes after `k`
  abbrev pub Above : K → Map K V → Type 0
  Above k [] = Unit
  Above k ((j, w) ∷ m) = (o.klt k j ≡ true) × Above k m

  abbrev pub IsOrdered : Map K V → Type 0
  IsOrdered [] = Unit
  IsOrdered ((j, w) ∷ m) = Above j m × IsOrdered m

  Above-trans : (k j : K) (m : Map K V) → o.klt k j ≡ true → Above j m → Above k m
  Above-trans k j [] h a = tt
  Above-trans k j ((i, w) ∷ m) h a = (o.klt_trans k j i h a.0, Above-trans k j m h a.1)

  pub find-Above : (k : K) (m : Map K V) → Above k m → find k m ≡ none
  unfolding find
  find-Above k [] a = refl
  find-Above k ((j, w) ∷ m) a = ground (arith, lt_ne o k j a.0, find-Above k m a.1)

  Above-erase : (i k : K) (m : Map K V) → Above i m → Above i (erase k m)
  unfolding erase
  Above-erase i k [] a = tt
  Above-erase i k ((j, w) ∷ m) a = ground (arith, Above-erase i k m a.1)

  pub erase-IsOrdered : (k : K) (m : Map K V) → IsOrdered m → IsOrdered (erase k m)
  unfolding erase
  erase-IsOrdered k [] a = tt
  erase-IsOrdered k ((j, w) ∷ m) a = ground (arith, Above-erase j k m a.0, erase-IsOrdered k m a.1)

  Above-emplace :
      (i k : K) (v : V) (m : Map K V) → o.klt i k ≡ true → Above i m → Above i (emplace k v m)
  unfolding emplace
  Above-emplace i k v [] h a = (h, tt)
  Above-emplace i k v ((j, w) ∷ m) h a = ground (arith, Above-emplace i k v m h a.1)

  pub emplace-IsOrdered : (k : K) (v : V) (m : Map K V) → IsOrdered m → IsOrdered (emplace k v m)
  unfolding emplace
  emplace-IsOrdered k v [] a = (tt, tt)
  emplace-IsOrdered k v ((j, w) ∷ m) a = ground (
    arith,
    Above-trans k j m,
    Above-emplace j k v m,
    emplace-IsOrdered k v m a.1,
    o.keq_iff k j,
    o.keq_iff j k,
    o.klt_total k j,
  )

  Above-assign :
      (i k : K) (v : V) (m : Map K V) → o.klt i k ≡ true → Above i m → Above i (assign k v m)
  unfolding assign
  Above-assign i k v [] h a = (h, tt)
  Above-assign i k v ((j, w) ∷ m) h a = ground (arith, Above-assign i k v m h a.1)

  pub assign-IsOrdered : (k : K) (v : V) (m : Map K V) → IsOrdered m → IsOrdered (assign k v m)
  unfolding assign
  assign-IsOrdered k v [] a = (tt, tt)
  assign-IsOrdered k v ((j, w) ∷ m) a = ground (
    arith,
    Above-trans k j m,
    Above-assign j k v m,
    assign-IsOrdered k v m a.1,
    o.keq_iff k j,
    o.keq_iff j k,
    o.klt_total k j,
  )

  Above-adjust : (i k : K) (f : V → V) (m : Map K V) → Above i m → Above i (adjust k f m)
  unfolding adjust
  Above-adjust i k f [] a = tt
  Above-adjust i k f ((j, w) ∷ m) a = ground (arith, Above-adjust i k f m a.1)

  pub adjust-IsOrdered : (k : K) (f : V → V) (m : Map K V) → IsOrdered m → IsOrdered (adjust k f m)
  unfolding adjust
  adjust-IsOrdered k f [] a = tt
  adjust-IsOrdered k f ((j, w) ∷ m) a =
      ground (arith, Above-adjust j k f m a.0, adjust-IsOrdered k f m a.1)

  Above-map_entries : (i : K) (f : K → V → V) (m : Map K V) → Above i m → Above i (map_entries f m)
  unfolding map_entries
  Above-map_entries i f [] a = tt
  Above-map_entries i f ((j, w) ∷ m) a = (a.0, Above-map_entries i f m a.1)

  pub map_entries-IsOrdered :
      (f : K → V → V) (m : Map K V) → IsOrdered m → IsOrdered (map_entries f m)
  unfolding map_entries
  map_entries-IsOrdered f [] a = tt
  map_entries-IsOrdered f ((j, w) ∷ m) a =
      (Above-map_entries j f m a.0, map_entries-IsOrdered f m a.1)

  -- equal heads, and a tail that agrees where the head's key is not looked up
  tails_agree :
      (k : K) (v w : V) (m n : Map K V)
      → Above k m
      → Above k n
      → ((i : K) → find i ((k, v) ∷ m) ≡ find i ((k, w) ∷ n))
      → (i : K) → find i m ≡ find i n
  unfolding find
  tails_agree k v w m n a b h i = elim (Bool-cases (o.keq k i)) [
    | inl e ↦
        let s : k ≡ i = (o.keq_iff k i).0 e in rw (← s) (find-Above k m a ∙ sym (find-Above k n b))
    | inr e ↦ ground (arith, h i)
  ]

  -- a map whose first key comes before another's holds what the other lacks
  first_missing :
      (j k : K) (v w : V) (m n : Map K V)
      → Above k n
      → find j ((j, v) ∷ m) ≡ find j ((k, w) ∷ n)
      → o.klt j k ≡ false
  unfolding find
  first_missing j k v w m n b h = elim (Bool-cases (o.klt j k)) [
    | inl e ↦ ground (arith, h, keq_self o j, lt_ne o j k e, find-Above j n (Above-trans j k n e b))
    | inr e ↦ e
  ]

  module _ (j k : K) (v w : V) (m n : Map K V) (a : IsOrdered ((j, v) ∷ m))
      (b : IsOrdered ((k, w) ∷ n)) where
    heads_agree : ((i : K) → find i ((j, v) ∷ m) ≡ find i ((k, w) ∷ n)) → j ≡ k
    heads_agree h = ground (
      arith,
      first_missing j k v w m n b.0 (h j),
      first_missing k j w v n m a.0 (sym (h k)),
      o.klt_total j k,
      o.keq_iff j k,
    )

    cons_ext :
        (((i : K) → find i m ≡ find i n) → m ≡ n)
        → ((i : K) → find i ((j, v) ∷ m) ≡ find i ((k, w) ∷ n))
        → ◌≡◌ {A = Map K V} ((j, v) ∷ m) ((k, w) ∷ n)
    unfolding find
    cons_ext tails h =
        let same = heads_agree h in
        let above = subst (λ i. Above i m) same a.0 in
        let heads : (i : K) → find i ((k, v) ∷ m) ≡ find i ((k, w) ∷ n) =
          subst (λ l. (i : K) → find i ((l, v) ∷ m) ≡ find i ((k, w) ∷ n)) same h in
        let rest = tails (tails_agree k v w m n above b.0 heads) in
        ground (arith, same, rest, h k, keq_self o k)

  -- Ordered maps that hold the same under each key are equal.
  pub ordered_ext :
      (m n : Map K V) → IsOrdered m → IsOrdered n → ((i : K) → find i m ≡ find i n) → m ≡ n
  unfolding find
  ordered_ext [] [] a b h = refl
  ordered_ext [] ((k, w) ∷ n) a b h = ground (arith, h k, keq_self o k)
  ordered_ext ((j, v) ∷ m) [] a b h = ground (arith, h j, keq_self o j)
  ordered_ext ((j, v) ∷ m) ((k, w) ∷ n) a b h = cons_ext j k v w m n a b (ordered_ext m n a.1 b.1) h
