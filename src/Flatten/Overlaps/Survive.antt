-- ===== src/Flatten/Overlaps/Survive.antt =====
-- What `resolveOverlaps` of engine/src/model/flattener.cpp leaves of the notes.
use mathlib.Core.List.{Mem, Perm}
use mathlib.Core.List.Perm
use onebeat.Prelude.{
  ◌≡◌, refl, ap, inl, inr, Bool, true, false, not, ◌+◌, ◌||◌, List, [], ◌∷◌, arith, All, any,
  keep_if, Bool-cases, All-map_pred,
}
use onebeat.Prelude.Int.{◌≤ℤ◌, ◌<ℤ◌, pos_part, neg_part}
use onebeat.Prelude.Members.{any-Perm, All-Mem}
use onebeat.Prelude.Sorting.{is_sorted, head_first, is_sorted-tail}
use onebeat.Flatten.{ResolvedNote, note_before, cut_by, cut_all, sounds, resolve_overlaps}
use onebeat.Flatten.Order.{note_order, same_start}
use onebeat.Flatten.Overlaps.{
  NoOverlap, same_onset, cut_from, All-keep_if, NoOverlap-keep_if, cut-cases, cut_by-cut_from,
  cut_all-NoOverlap,
}

cut_silent :
    (x y : ResolvedNote)
    → note_before y x ≡ false
    → sounds x ≡ true
    → sounds (cut_by x y) ≡ false
    → (same_onset x y ≡ true) × (sounds y ≡ true)
cut_silent x y h s c = elim (cut-cases x y) [
  | inl u ↦ absurd (ground (arith, ap sounds u.0))
  | inr t ↦
      let d = same_start x y h t.1 t.2 in
      let e : y.start ≤ℤ x.start = silent (ap sounds t.0) in
      let f : pos_part x.key + neg_part y.key ≡ pos_part y.key + neg_part x.key =
        omega (arith, ap pos_part t.2, ap neg_part t.2) in
      let i : x.instrument ≡ y.instrument = t.1 in (ground arith, ground arith)
]
  where
    silent : sounds (cut_by x y) ≡ sounds (record x { end = y.start }) → y.start ≤ℤ x.start
    silent e = ground arith

onset_trans :
    (x y m : ResolvedNote) → same_onset x y ≡ true → same_onset y m ≡ true → same_onset x m ≡ true
onset_trans x y m h k = ground arith

module _ {A : Type 0} where
  any-map_pred :
      (p q : A → Bool) (xs : List A)
      → ((a : A) → p a ≡ true → q a ≡ true)
      → any p xs ≡ true
      → any q xs ≡ true
  any-map_pred p q [] f h = h
  any-map_pred p q (x ∷ xs) f h = elim (Bool-cases (p x)) [
    | inl e ↦ rw (f x e) refl
    | inr e ↦ ground (arith, any-map_pred p q xs f (ground (arith, e)))
  ]

  any-keep_if :
      (p q : A → Bool) (x : A) (xs : List A)
      → any p (keep_if q xs) ≡ true
      → any p (keep_if q (x ∷ xs)) ≡ true
  any-keep_if p q x xs h = ground arith

  any_kept :
      (p q : A → Bool) (x : A) (xs : List A)
      → q x ≡ true
      → p x ≡ true
      → any p (keep_if q (x ∷ xs)) ≡ true
  any_kept p q x xs h k = rw (h, k) refl

kept : (ns : List ResolvedNote) → All (λ n. n.start <ℤ n.end) (keep_if sounds ns)
kept [] = tt
kept (n ∷ ns) = elim (Bool-cases (sounds n)) [
  | inl e ↦ rw e (ground arith, kept ns)
  | inr e ↦ rw e (kept ns)
]

-- The note has no length, or one of the others is at its onset.
abbrev survives : List ResolvedNote → ResolvedNote → Bool
survives out n = not (sounds n) || any (same_onset n) out

alone : (x : ResolvedNote) → survives (keep_if sounds (x ∷ [])) x ≡ true
alone x = ground arith

still :
    (z x : ResolvedNote) (xs : List ResolvedNote)
    → survives (keep_if sounds xs) z ≡ true
    → survives (keep_if sounds (x ∷ xs)) z ≡ true
still z x xs h = ground (arith, any-keep_if (same_onset z) sounds x xs)

found :
    (z : ResolvedNote) (out : List ResolvedNote)
    → any (same_onset z) out ≡ true
    → survives out z ≡ true
found z out h = ground (arith, h)

onset_self : (x y : ResolvedNote) → same_onset x (cut_by x y) ≡ true
onset_self x y = ground (arith, cut_by-cut_from x y)

first :
    (x y : ResolvedNote) (xs : List ResolvedNote)
    → note_before y x ≡ false
    → survives (keep_if sounds xs) y ≡ true
    → survives (keep_if sounds (cut_by x y ∷ xs)) x ≡ true
first x y xs near h = elim (Bool-cases (sounds x)) [
  | inr e ↦ rw e refl
  | inl e ↦ elim (Bool-cases (sounds (cut_by x y))) [
    | inl c ↦
        found x (keep_if sounds (cut_by x y ∷ xs))
          (any_kept (same_onset x) sounds (cut_by x y) xs c (onset_self x y))
    | inr c ↦
        let r = cut_silent x y near e c in
        let s : any (same_onset y) (keep_if sounds xs) ≡ true = ground (arith, r.1) in
        found x (keep_if sounds (cut_by x y ∷ xs)) (
          any-keep_if (same_onset x) sounds (cut_by x y) xs (
            any-map_pred (same_onset y) (same_onset x) (keep_if sounds xs)
              (λ m. onset_trans x y m r.0) s))
  ]
]

cut_all-survives :
    (ns : List ResolvedNote)
    → is_sorted note_before ns ≡ true
    → All (λ n. survives (keep_if sounds (cut_all ns)) n ≡ true) ns
unfolding cut_all
cut_all-survives [] h = tt
cut_all-survives (x ∷ []) h = (alone x, tt)
cut_all-survives (x ∷ y ∷ rest) h =
    let tail = is_sorted-tail note_order x (y ∷ rest) h in
    let near = (head_first note_order x (y ∷ rest) h).0 in
    let later = cut_all-survives (y ∷ rest) tail in
    (
      first x y (cut_all (y ∷ rest)) near later.0,
      All-map_pred (λ z. survives (keep_if sounds (cut_all (y ∷ rest))) z ≡ true)
          (λ z. survives (keep_if sounds (cut_by x y ∷ cut_all (y ∷ rest))) z ≡ true) (y ∷ rest)
          (λ z. still z (cut_by x y) (cut_all (y ∷ rest))) later,
    )

cut_all-cut_from : (ns : List ResolvedNote) → All (λ m. any (cut_from m) ns ≡ true) (cut_all ns)
unfolding cut_all
cut_all-cut_from [] = tt
cut_all-cut_from (x ∷ []) = (ground arith, tt)
cut_all-cut_from (x ∷ y ∷ rest) = (
  rw (cut_by-cut_from x y) refl,
  All-map_pred (λ m. any (cut_from m) (y ∷ rest) ≡ true)
      (λ m. any (cut_from m) (x ∷ y ∷ rest) ≡ true) (cut_all (y ∷ rest)) (λ m h. ground (arith, h))
      (cut_all-cut_from (y ∷ rest)),
)

-- For any sort of notes in the order of `resolveOverlaps`, whatever it makes of equivalent ones: of what
-- is left no note ends before it has started, and no two notes of one instrument and key overlap; each
-- one is a note of the input with its end at most moved back; and for every note of the input that has
-- a length, one is left of its instrument and key that starts where it does.
pub resolve_overlaps_lem :
    (sort : List ResolvedNote → List ResolvedNote) (notes : List ResolvedNote)
    → ((ns : List ResolvedNote) → Perm (sort ns) ns × (is_sorted note_before (sort ns) ≡ true))
    → let out = resolve_overlaps sort notes in
      All (λ n. n.start <ℤ n.end) out
      × NoOverlap out
      × ((m : ResolvedNote) → Mem m out → any (cut_from m) notes ≡ true)
      × ((n : ResolvedNote) → Mem n notes → n.start <ℤ n.end → any (same_onset n) out ≡ true)
unfolding resolve_overlaps
resolve_overlaps_lem sort notes ok =
    let s = ok notes in
    (
      kept (cut_all (sort notes)),
      NoOverlap-keep_if sounds (cut_all (sort notes)) (cut_all-NoOverlap (sort notes) s.1),
      λ m h. any-Perm (cut_from m) (sort notes) notes s.0 (
          All-Mem (λ k. any (cut_from k) (sort notes)) m (keep_if sounds (cut_all (sort notes)))
            (All-keep_if (λ k. any (cut_from k) (sort notes) ≡ true) sounds (cut_all (sort notes))
              (cut_all-cut_from (sort notes)))
            h),
      λ n h t.
          let r : survives (keep_if sounds (cut_all (sort notes))) n ≡ true =
            All-Mem (survives (keep_if sounds (cut_all (sort notes)))) n (sort notes)
              (cut_all-survives (sort notes) s.1) ((Perm.mem_iff s.0).1 h) in
          ground (arith, r, t),
    )
