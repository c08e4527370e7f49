-- ===== src/Flatten/Overlaps.antt =====
-- The loop of `resolveOverlaps` in engine/src/model/flattener.cpp that cuts notes.
pub mod Survive
use mathlib.Core.List.{Mem, Perm}
use mathlib.Core.List.Perm
use onebeat.Prelude.{
  ◌≡◌, refl, ap, ◌⊎◌, inl, inr, Bool, true, false, not, ◌+◌, ◌&&◌, ◌||◌, List, [], ◌∷◌, arith, All,
  any, keep_if, Bool-cases, ◌==◌, All-map_pred,
}
use onebeat.Prelude.Int.{◌≤ℤ◌, ◌<ℤ◌, eq_ℤ, leb_ℤ, ltb_ℤ, eq_of_parts, pos_part, neg_part}
use onebeat.Prelude.Members.{any-Perm, All-Mem}
use onebeat.Prelude.Sorting.{irrefl, is_sorted, head_first, is_sorted-tail}
use onebeat.Flatten.{ResolvedNote, note_before, cut_by, cut_all, sounds, resolve_overlaps}
use onebeat.Flatten.Order.{note_order, between, same_start}

-- Where the second note has the first one's key and instrument, it starts when the first has ended.
abbrev pub Clear : ResolvedNote → ResolvedNote → Type 0
Clear a b = a.instrument ≡ b.instrument → a.key ≡ b.key → a.end ≤ℤ b.start

abbrev pub NoOverlap : List ResolvedNote → Type 0
NoOverlap [] = Unit
NoOverlap (n ∷ ns) = All (Clear n) ns × NoOverlap ns

-- The two are of one instrument, key and start.
abbrev pub same_onset : ResolvedNote → ResolvedNote → Bool
same_onset a b = a.instrument == b.instrument && (eq_ℤ a.key b.key && eq_ℤ a.start b.start)

-- The second is the first, or what is left of it when its end is moved back.
abbrev pub cut_from : ResolvedNote → ResolvedNote → Bool
cut_from m n =
    m.instrument == n.instrument
    && (eq_ℤ m.key n.key
        && (eq_ℤ m.start n.start && (m.velocity == n.velocity && leb_ℤ m.end n.end)))

pub All-keep_if {ℓ κ} :
    {A : Type ℓ} (P : A → Type κ) (p : A → Bool) (xs : List A) → All P xs → All P (keep_if p xs)
All-keep_if P p [] h = tt
All-keep_if P p (x ∷ xs) h = elim (Bool-cases (p x)) [
  | inl e ↦ rw e (h.0, All-keep_if P p xs h.1)
  | inr e ↦ rw e (All-keep_if P p xs h.1)
]

pub NoOverlap-keep_if :
    (p : ResolvedNote → Bool) (ns : List ResolvedNote) → NoOverlap ns → NoOverlap (keep_if p ns)
NoOverlap-keep_if p [] h = tt
NoOverlap-keep_if p (n ∷ ns) h = elim (Bool-cases (p n)) [
  | inl e ↦ rw e (All-keep_if (Clear n) p ns h.0, NoOverlap-keep_if p ns h.1)
  | inr e ↦ rw e (NoOverlap-keep_if p ns h.1)
]

-- A note that is not cut is clear of the next one; one that is ends where that starts.
abbrev Uncut : ResolvedNote → ResolvedNote → Type 0
Uncut x y = (cut_by x y ≡ x) × Clear x y

abbrev Shortened : ResolvedNote → ResolvedNote → Type 0
Shortened x y =
    (cut_by x y ≡ record x { end = y.start })
    × (x.instrument ≡ y.instrument)
    × (x.key ≡ y.key)
    × (y.start <ℤ x.end)

pub cut-cases : (x y : ResolvedNote) → Uncut x y ⊎ Shortened x y
cut-cases x y = elim (Bool-cases (not (x.instrument == y.instrument) || not (eq_ℤ x.key y.key))) [
  | inl e ↦ inl (rw e refl, λ i k. absurd (ground (arith, ap pos_part k, ap neg_part k)))
  | inr e ↦ elim (Bool-cases (ltb_ℤ y.start x.end)) [
    | inl f ↦
        inr (rw (e, f) refl, ground arith, eq_of_parts x.key y.key (ground arith), ground arith)
    | inr f ↦ inl (rw (e, f) refl, λ i k. ground arith)
  ]
]

-- A cut moves the end only, and back.
pub cut_by-cut_from : (x y : ResolvedNote) → cut_from (cut_by x y) x ≡ true
cut_by-cut_from x y = elim (cut-cases x y) [
  | inl u ↦ rw u.0 (ground arith)
  | inr s ↦ rw s.0 (ground (arith, s.3))
]

Clear-cut_by : (a n m : ResolvedNote) → Clear a n → Clear a (cut_by n m)
Clear-cut_by a n m h = elim (cut-cases n m) [ inl u ↦ rw u.0 h | inr s ↦ rw s.0 h ]

Clear-cut_all :
    (a : ResolvedNote) (ns : List ResolvedNote) → All (Clear a) ns → All (Clear a) (cut_all ns)
unfolding cut_all
Clear-cut_all a [] h = tt
Clear-cut_all a (n ∷ []) h = h
Clear-cut_all a (n ∷ m ∷ rest) h = (Clear-cut_by a n m h.0, Clear-cut_all a (m ∷ rest) h.1)

cut_by-Clear :
    (x y z : ResolvedNote)
    → note_before y x ≡ false
    → note_before z y ≡ false
    → Clear (cut_by x y) z
cut_by-Clear x y z h k = elim (cut-cases x y) [
  | inl u ↦ rw u.0 (λ i e. let b = between x y z h k i e in omega (arith, u.1 b.0 b.1, b.2))
  | inr s ↦ rw s.0 (λ i e. (between x y z h k i e).2)
]

pub cut_all-NoOverlap :
    (ns : List ResolvedNote) → is_sorted note_before ns ≡ true → NoOverlap (cut_all ns)
unfolding cut_all
cut_all-NoOverlap [] h = tt
cut_all-NoOverlap (x ∷ []) h = (tt, tt)
cut_all-NoOverlap (x ∷ y ∷ rest) h =
    let tail = is_sorted-tail note_order x (y ∷ rest) h in
    let near = (head_first note_order x (y ∷ rest) h).0 in
    (
      Clear-cut_all (cut_by x y) (y ∷ rest) (
        cut_by-Clear x y y near (irrefl note_order y),
        All-map_pred (λ z. note_before z y ≡ false) (Clear (cut_by x y)) rest
            (λ z. cut_by-Clear x y z near) (head_first note_order y rest tail),
      ),
      cut_all-NoOverlap (y ∷ rest) tail,
    )
