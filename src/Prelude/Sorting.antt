-- ===== src/Prelude/Sorting.antt =====
-- What the standard library's binary searches and stable sort return, over a strict weak order:
-- on a range that the order partitions, `std::lower_bound` is the number of elements before the
-- value, and `std::upper_bound` the number of those that the value is not before. The result of
-- `std::stable_sort` is determined by its contract; insertion from the right computes it.
pub mod Stable
use Prim.Native.Nat.{ℕ, suc, ◌≤◌}
use mathlib.Core.Path.{◌≡◌, refl}
use mathlib.Core.Logic.{inl, inr}
use mathlib.Core.Bool.{Bool, true, false, not, ◌&&◌}
use mathlib.Core.List.{List, [], ◌∷◌, Perm}
use mathlib.Core.List.Perm
use native.Mathlib.Omega.{arith}
use onebeat.Prelude.Tests.{if◌then◌else◌, Bool-cases}
use onebeat.Prelude.Lists.{length, insert_at, All}

-- A comparison that the algorithms accept.
pub record StrictWeak {ℓ} {A : Type ℓ} (before : A → A → Bool) : Type ℓ where
  pub asymm : (a b : A) → before a b ≡ true → before b a ≡ false
  -- not before is transitive
  pub le_trans : (a b c : A) → before b a ≡ false → before c b ≡ false → before c a ≡ false

-- How many elements stand before the first that fails the test.
unfoldable pub partition_point {ℓ} : {A : Type ℓ} → (A → Bool) → List A → ℕ
partition_point test [] = 0
partition_point test (y ∷ ys) = let rest = partition_point test ys in if test y then suc rest else 0

module _ {ℓ} {A : Type ℓ} (before : A → A → Bool) where
  -- the head is not after the next element
  abbrev pub in_order : A → List A → Bool
  in_order x [] = true
  in_order x (y ∷ ys) = not (before y x)

  unfoldable pub is_sorted : List A → Bool
  is_sorted [] = true
  is_sorted (x ∷ xs) = in_order x xs && is_sorted xs

  -- the first element for which `before x` holds
  unfoldable pub upper_bound : A → List A → ℕ
  upper_bound x [] = 0
  upper_bound x (y ∷ ys) = let rest = upper_bound x ys in if before x y then 0 else suc rest

  -- insertion after the elements that are equivalent
  abbrev pub insert_after : A → List A → List A
  insert_after x [] = x ∷ []
  insert_after x (y ∷ ys) =
      let rest = insert_after x ys in if before x y then x ∷ y ∷ ys else y ∷ rest

  -- insertion before the elements that are equivalent
  abbrev pub insert_before : A → List A → List A
  insert_before x [] = x ∷ []
  insert_before x (y ∷ ys) =
      let rest = insert_before x ys in if before y x then y ∷ rest else x ∷ y ∷ ys

  unfoldable pub stable_sort : List A → List A
  stable_sort [] = []
  stable_sort (x ∷ xs) = insert_before x (stable_sort xs)

  pub insert_at-upper_bound :
      (x : A) (xs : List A) → insert_at (upper_bound x xs) x xs ≡ insert_after x xs
  unfolding upper_bound
  insert_at-upper_bound x [] = refl
  insert_at-upper_bound x (y ∷ ys) = ground (arith, insert_at-upper_bound x ys)

  pub upper_bound-le : (x : A) (xs : List A) → upper_bound x xs ≤ length xs
  unfolding upper_bound
  upper_bound-le x [] = omega arith
  upper_bound-le x (y ∷ ys) = ground (arith, upper_bound-le x ys)

  pub insert_after-perm : (x : A) (xs : List A) → Perm (insert_after x xs) (x ∷ xs)
  insert_after-perm x [] = Perm.refl (x ∷ [])
  insert_after-perm x (y ∷ ys) = elim (Bool-cases (before x y)) [
    | inl e ↦ rw e (Perm.refl (x ∷ y ∷ ys))
    | inr e ↦ rw e (Perm.trans (Perm.cons y (insert_after-perm x ys)) (Perm.swap x y ys))
  ]

  pub insert_before-perm : (x : A) (xs : List A) → Perm (insert_before x xs) (x ∷ xs)
  insert_before-perm x [] = Perm.refl (x ∷ [])
  insert_before-perm x (y ∷ ys) = elim (Bool-cases (before y x)) [
    | inl e ↦ rw e (Perm.trans (Perm.cons y (insert_before-perm x ys)) (Perm.swap x y ys))
    | inr e ↦ rw e (Perm.refl (x ∷ y ∷ ys))
  ]

  pub stable_sort-perm : (xs : List A) → Perm (stable_sort xs) xs
  unfolding stable_sort
  stable_sort-perm [] = Perm.refl []
  stable_sort-perm (x ∷ xs) =
      Perm.trans (insert_before-perm x (stable_sort xs)) (Perm.cons x (stable_sort-perm xs))

module _ {ℓ} {A : Type ℓ} {before : A → A → Bool} (order : StrictWeak before) where
  pub irrefl : (a : A) → before a a ≡ false
  irrefl a = ground (arith, order.asymm a a)

  pub insert_after-is_sorted :
      (x : A) (xs : List A)
      → is_sorted before xs ≡ true
      → is_sorted before (insert_after before x xs) ≡ true
  unfolding is_sorted
  insert_after-is_sorted x [] h = refl
  insert_after-is_sorted x (y ∷ []) h = ground (arith, order.asymm x y)
  insert_after-is_sorted x (y ∷ z ∷ zs) h =
      ground (arith, order.asymm x y, insert_after-is_sorted x (z ∷ zs))

  pub insert_before-is_sorted :
      (x : A) (xs : List A)
      → is_sorted before xs ≡ true
      → is_sorted before (insert_before before x xs) ≡ true
  unfolding is_sorted
  insert_before-is_sorted x [] h = refl
  insert_before-is_sorted x (y ∷ []) h = ground (arith, order.asymm y x)
  insert_before-is_sorted x (y ∷ z ∷ zs) h =
      ground (arith, order.asymm y x, insert_before-is_sorted x (z ∷ zs))

  pub stable_sort-is_sorted : (xs : List A) → is_sorted before (stable_sort before xs) ≡ true
  unfolding stable_sort is_sorted
  stable_sort-is_sorted [] = refl
  stable_sort-is_sorted (x ∷ xs) =
      insert_before-is_sorted x (stable_sort before xs) (stable_sort-is_sorted xs)

  -- every later element is not before the head
  later_not_before :
      (x y : A) (ys : List A)
      → before y x ≡ false
      → All (λ z. before z y ≡ false) ys
      → All (λ z. before z x ≡ false) ys
  later_not_before x y [] h t = tt
  later_not_before x y (z ∷ zs) h t = (order.le_trans x y z h t.0, later_not_before x y zs h t.1)

  pub head_first :
      (x : A) (xs : List A) → is_sorted before (x ∷ xs) ≡ true → All (λ y. before y x ≡ false) xs
  unfolding is_sorted
  head_first x [] h = tt
  head_first x (y ∷ ys) h =
      let near : before y x ≡ false = ground arith in
      (near, later_not_before x y ys near (head_first y ys (ground arith)))

  pub is_sorted-tail :
      (x : A) (xs : List A) → is_sorted before (x ∷ xs) ≡ true → is_sorted before xs ≡ true
  unfolding is_sorted
  is_sorted-tail x xs h = ground arith

  pub stable_sort_of_sorted :
      (xs : List A) → is_sorted before xs ≡ true → stable_sort before xs ≡ xs
  unfolding stable_sort is_sorted
  stable_sort_of_sorted [] h = refl
  stable_sort_of_sorted (x ∷ []) h = refl
  stable_sort_of_sorted (x ∷ y ∷ ys) h =
      rw (stable_sort_of_sorted (y ∷ ys) (ground arith)) (ground arith)

  pub is_sorted-cons :
      (x : A) (xs : List A)
      → All (λ y. before y x ≡ false) xs
      → is_sorted before xs ≡ true
      → is_sorted before (x ∷ xs) ≡ true
  unfolding is_sorted
  is_sorted-cons x [] a h = refl
  is_sorted-cons x (y ∷ ys) a h = ground (arith, a.0)
