-- ===== src/Prelude/Sorting/Stable.antt =====
-- Equivalent elements in a sort.
use onebeat.Prelude.Lists.{keep_if, All}
use mathlib.Core.Path.{◌≡◌, refl, ◌∙◌}
use mathlib.Core.Bool.{Bool, true, false, not, ◌&&◌}
use mathlib.Core.List.{List, [], ◌∷◌}
use native.Mathlib.Omega.{arith}
use onebeat.Prelude.Sorting.{StrictWeak, insert_before, stable_sort}

pub keep_if_none {ℓ} :
    {A : Type ℓ} (p : A → Bool) (xs : List A) → All (λ x. p x ≡ false) xs → keep_if p xs ≡ []
keep_if_none p [] h = refl
keep_if_none p (x ∷ xs) h = rw (h.0) (keep_if_none p xs h.1)

module _ {ℓ} {A : Type ℓ} {before : A → A → Bool} (order : StrictWeak before) where
  -- neither comes before the other
  abbrev pub equivalent : A → A → Bool
  equivalent x y = not (before x y) && not (before y x)

  earlier_not_equivalent :
      (z x y : A) → before y x ≡ true → equivalent z x ≡ true → equivalent z y ≡ false
  earlier_not_equivalent z x y h e = ground (arith, order.le_trans x z y)

  keep_if-insert_before :
      (z x : A) (xs : List A)
      → keep_if (equivalent z) (insert_before before x xs) ≡ keep_if (equivalent z) (x ∷ xs)
  keep_if-insert_before z x [] = refl
  keep_if-insert_before z x (y ∷ ys) =
      ground (arith, earlier_not_equivalent z x y, keep_if-insert_before z x ys)

  pub keep_if-stable_sort :
      (z : A) (xs : List A)
      → keep_if (equivalent z) (stable_sort before xs) ≡ keep_if (equivalent z) xs
  unfolding stable_sort
  keep_if-stable_sort z [] = refl
  keep_if-stable_sort z (x ∷ xs) =
      keep_if-insert_before z x (stable_sort before xs) ∙ ground (arith, keep_if-stable_sort z xs)
