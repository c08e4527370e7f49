-- ===== src/Prelude/Members.antt =====
-- Members of lists and of their permutations.
use mathlib.Core.Path.{◌≡◌, ◌∙◌, refl, sym, ap}
use mathlib.Core.Logic.Or
use mathlib.Core.Logic.{inl, inr}
use mathlib.Core.Bool.{Bool, true, Bool-set}
use mathlib.Core.List.{
  List, [], ◌∷◌, Mem, Perm, mem-cons_self, mem-cons_of_mem, eq-or-mem_of_mem-cons, not-mem-nil,
}
use mathlib.Core.List.Perm
use native.Mathlib.Omega.{arith}
use onebeat.Prelude.Tests.{Bool-cases}
use onebeat.Prelude.Lists.{All, any}

module _ {A : Type 0} where
  Mem-any : (p : A → Bool) (a : A) (xs : List A) → Mem a xs → p a ≡ true → any p xs ≡ true
  Mem-any p a [] m h = absurd (not-mem-nil m)
  Mem-any p a (x ∷ xs) m h =
      Or.elim (Bool-set _ _) (eq-or-mem_of_mem-cons m) (λ e. rw (ap p (sym e) ∙ h) refl)
        (λ t. ground (arith, Mem-any p a xs t h))

  pub any-Mem : (p : A → Bool) (xs : List A) → any p xs ≡ true → (a : A) × Mem a xs × (p a ≡ true)
  any-Mem p [] h = absurd (ground (arith, h))
  any-Mem p (x ∷ xs) h = elim (Bool-cases (p x)) [
    | inl e ↦ (x, mem-cons_self, e)
    | inr e ↦ let r = any-Mem p xs (ground (arith, e)) in (r.0, mem-cons_of_mem x r.1, r.2)
  ]

  pub any-Perm : (p : A → Bool) (xs ys : List A) → Perm xs ys → any p xs ≡ true → any p ys ≡ true
  any-Perm p xs ys e h = let r = any-Mem p xs h in Mem-any p r.0 ys ((Perm.mem_iff e).0 r.1) r.2

  pub All-Mem :
      (q : A → Bool) (a : A) (xs : List A) → All (λ b. q b ≡ true) xs → Mem a xs → q a ≡ true
  All-Mem q a [] h m = absurd (not-mem-nil m)
  All-Mem q a (x ∷ xs) h m =
      Or.elim (Bool-set _ _) (eq-or-mem_of_mem-cons m) (λ e. ap q e ∙ h.0)
        (λ t. All-Mem q a xs h.1 t)

  pub Mem-All :
      (q : A → Bool) (xs : List A) → ((a : A) → Mem a xs → q a ≡ true) → All (λ b. q b ≡ true) xs
  Mem-All q [] f = tt
  Mem-All q (x ∷ xs) f = (f x mem-cons_self, Mem-All q xs (λ a m. f a (mem-cons_of_mem x m)))

  pub All-Perm :
      (q : A → Bool) (xs ys : List A)
      → Perm xs ys
      → All (λ b. q b ≡ true) xs
      → All (λ b. q b ≡ true) ys
  All-Perm q xs ys e h = Mem-All q ys (λ a m. All-Mem q a xs h ((Perm.mem_iff e).1 m))
