-- ===== src/Notes/Sequence/Search.antt =====
-- The binary searches of a note sequence.
use mathlib.Core.List.{Perm}
use mathlib.Core.List.Perm
use onebeat.Prelude.{
  ℕ, ◌≡◌, refl, inl, inr, true, false, ◌&&◌, Bool, Bool-cases, Option, none, some, List, [], ◌∷◌,
  ◌++◌, arith, if◌then◌else◌, take, drop, keep_if, All, subst, sym,
}
use onebeat.Prelude.Int.{◌≤ℤ◌, leb_ℤ, ltb_ℤ}
use onebeat.Prelude.Sorting.{
  is_sorted, partition_point, head_first, is_sorted-tail, is_sorted-cons, irrefl,
}
use onebeat.Prelude.Sorting.Stable.{keep_if_none}
use onebeat.Notes.{
  Note, NoteSequence, Ticks, note_eq, note_order_before, erase_scan, erase, sequence_is_sorted,
  starting_in,
}
use onebeat.Notes.Order.{note_order, note_eq_iff}

-- the note's onset lies in [start, end)
abbrev pub starts_within : Ticks → Ticks → Note → Bool
starts_within start end n = leb_ℤ start n.start && ltb_ℤ n.start end

pub not_earlier : (a b : Note) → note_order_before b a ≡ false → a.start ≤ℤ b.start
unfolding note_order_before
not_earlier a b h = ground arith

none_within :
    (start end : Ticks) (n : Note) (ns : List Note)
    → end ≤ℤ n.start
    → All (λ m. note_order_before m n ≡ false) ns
    → All (λ m. starts_within start end m ≡ false) ns
none_within start end n [] h a = tt
none_within start end n (m ∷ ns) h a =
    (ground (arith, not_earlier n m a.0), none_within start end n ns h a.1)

take_within :
    (start end : Ticks) (ns : List Note)
    → is_sorted note_order_before ns ≡ true
    → All (λ n. start ≤ℤ n.start) ns
    → take (partition_point (λ n. ltb_ℤ n.start end) ns) ns ≡ keep_if (starts_within start end) ns
unfolding partition_point
take_within start end [] h a = refl
take_within start end (n ∷ ns) h a = ground (
  arith,
  take_within start end ns (is_sorted-tail note_order n ns h) a.1,
  keep_if_none (starts_within start end) ns,
  none_within start end n ns,
  head_first note_order n ns h,
)

All-from :
    (start : Ticks) (n : Note) (ns : List Note)
    → start ≤ℤ n.start
    → All (λ m. note_order_before m n ≡ false) ns
    → All (λ m. start ≤ℤ m.start) ns
All-from start n [] h a = tt
All-from start n (m ∷ ns) h a = (omega (arith, not_earlier n m a.0), All-from start n ns h a.1)

span_within :
    (start end : Ticks) (ns : List Note)
    → is_sorted note_order_before ns ≡ true
    → let rest = drop (partition_point (λ (n : Note). ltb_ℤ n.start start) ns) ns in
      take (partition_point (λ (n : Note). ltb_ℤ n.start end) rest) rest
      ≡ keep_if (starts_within start end) ns
unfolding partition_point
span_within start end [] h = refl
span_within start end (n ∷ ns) h = elim (Bool-cases (ltb_ℤ n.start start)) [
  | inl e ↦ rw e (ground (arith, span_within start end ns (is_sorted-tail note_order n ns h)))
  | inr e ↦ rw e (
      take_within start end (n ∷ ns) h
        (ground arith, All-from start n ns (ground arith) (head_first note_order n ns h)))
]

never_within :
    (start end : Ticks) (ns : List Note)
    → end ≤ℤ start
    → All (λ m. starts_within start end m ≡ false) ns
never_within start end [] h = tt
never_within start end (n ∷ ns) h = (ground arith, never_within start end ns h)

-- In a sequence in canonical order, the two binary searches find exactly the notes whose onset lies
-- in [start, end), in order.
pub starting_in_lem :
    (s : NoteSequence) (start end : Ticks)
    → sequence_is_sorted s ≡ true
    → starting_in s start end ≡ keep_if (starts_within start end) s.notes
unfolding starting_in sequence_is_sorted
starting_in_lem s start end h = elim (Bool-cases (leb_ℤ end start)) [
  | inl e ↦ rw (
    e,
    keep_if_none (starts_within start end) s.notes (never_within start end s.notes (ground arith)),
  )
  | inr e ↦ rw e (span_within start end s.notes h)
]

-- `erase` as one walk: over the notes before, then the loop
erase_walk : Note → List Note → Option (List Note)
erase_walk note [] = none
erase_walk note (n ∷ ns) =
    let rest = erase_walk note ns in
    if note_order_before n note
    then elim rest [ none ↦ none | some r ↦ some (n ∷ r) ]
    else erase_scan note (n ∷ ns)

erase_position-eq-walk :
    (note : Note) (ns : List Note)
    → let position = partition_point (λ n. note_order_before n note) ns in
      elim (erase_scan note (drop position ns)) [
        | none ↦ none
        | some rest ↦ some (take position ns ++ rest)
      ]
      ≡ erase_walk note ns
unfolding erase_walk erase_scan partition_point
erase_position-eq-walk note [] = refl
erase_position-eq-walk note (n ∷ ns) = ground (arith, erase_position-eq-walk note ns)

equal_not_before : (note n : Note) → note_order_before n note ≡ true → note_eq n note ≡ false
equal_not_before note n h = ground (arith, note_eq_iff n note, note_order.asymm n note)

equal_not_after :
    (note n m : Note)
    → note_order_before note n ≡ true
    → note_order_before m n ≡ false
    → note_eq m note ≡ false
equal_not_after note n m h k = ground (arith, note_eq_iff m note)

All-after :
    (note n : Note) (ns : List Note)
    → note_order_before note n ≡ true
    → All (λ m. note_order_before m n ≡ false) ns
    → All (λ m. note_eq m note ≡ false) ns
All-after note n [] h a = tt
All-after note n (m ∷ ns) h a = (equal_not_after note n m h a.0, All-after note n ns h a.1)

-- what a walk over notes in order has found
abbrev Erased : Note → List Note → Option (List Note) → Type 0
Erased note ns none = All (λ m. note_eq m note ≡ false) ns
Erased note ns (some r) =
    (is_sorted note_order_before r ≡ true)
    × Perm (note ∷ r) ns
    × ((x : Note)
        → All (λ m. note_order_before m x ≡ false) ns
        → All (λ m. note_order_before m x ≡ false) r)

-- an earlier note in front
Erased-cons :
    (note n : Note) (ns : List Note) (o : Option (List Note))
    → is_sorted note_order_before (n ∷ ns) ≡ true
    → note_eq n note ≡ false
    → Erased note ns o
    → Erased note (n ∷ ns) (elim o [ none ↦ none | some r ↦ some (n ∷ r) ])
Erased-cons note n ns none h e a = (e, a)
Erased-cons note n ns (some r) h e (s, p, sub) = (
  is_sorted-cons note_order n r (sub _ (head_first note_order n ns h)) s,
  Perm.trans (Perm.swap n note r) (Perm.cons n p),
  λ x a. (a.0, sub x a.1),
)

erase_scan-Erased :
    (note : Note) (ns : List Note)
    → is_sorted note_order_before ns ≡ true
    → Erased note ns (erase_scan note ns)
unfolding erase_scan
erase_scan-Erased note [] h = tt
erase_scan-Erased note (n ∷ ns) h = elim (Bool-cases (note_order_before note n)) [
  | inl b ↦
      rw (b, erase_scan)
        (
          equal_not_after note n n b (irrefl note_order n),
          All-after note n ns b (head_first note_order n ns h),
        )
  | inr b ↦ elim (Bool-cases (note_eq n note)) [
    | inl e ↦
        rw (b, e, erase_scan)
          (
            is_sorted-tail note_order n ns h,
            subst (λ m. Perm (m ∷ ns) (n ∷ ns)) ((note_eq_iff n note).0 e) (Perm.refl (n ∷ ns)),
            λ x a. a.1,
          )
    | inr e ↦
        rw (b, e, erase_scan)
          (Erased-cons note n ns (erase_scan note ns) h e
            (erase_scan-Erased note ns (is_sorted-tail note_order n ns h)))
  ]
]

erase_walk-Erased :
    (note : Note) (ns : List Note)
    → is_sorted note_order_before ns ≡ true
    → Erased note ns (erase_walk note ns)
unfolding erase_walk
erase_walk-Erased note [] h = tt
erase_walk-Erased note (n ∷ ns) h = elim (Bool-cases (note_order_before n note)) [
  | inl b ↦
      rw (b, erase_walk)
        (Erased-cons note n ns (erase_walk note ns) h (equal_not_before note n b)
          (erase_walk-Erased note ns (is_sorted-tail note_order n ns h)))
  | inr b ↦ rw (b, erase_walk) (erase_scan-Erased note (n ∷ ns) h)
]

-- the outcome in terms of the sequence before and after
abbrev pub EraseOutcome : NoteSequence → Note → NoteSequence × Bool → Type 0
EraseOutcome s note (s', true) = (sequence_is_sorted s' ≡ true) × Perm (note ∷ s'.notes) s.notes
EraseOutcome s note (s', false) = (s' ≡ s) × All (λ m. note_eq m note ≡ false) s.notes

outcome :
    (s : NoteSequence) (note : Note) (position : ℕ) (scan : Option (List Note))
    → Erased note s.notes
        (elim scan [ none ↦ none | some rest ↦ some (take position s.notes ++ rest) ])
    → EraseOutcome s note (elim scan [
      | none ↦ (s, false)
      | some rest ↦ (record { notes = take position s.notes ++ rest }, true)
    ])
unfolding sequence_is_sorted
outcome s note position none e = (refl, e)
outcome s note position (some rest) e = (e.0, e.1)

-- On a sequence in canonical order, `erase` reports true exactly when a note equal to the given one
-- is there: it then takes out one such note and nothing else, and the order is kept; otherwise the
-- sequence is unchanged.
pub erase_lem :
    (s : NoteSequence) (note : Note)
    → sequence_is_sorted s ≡ true
    → EraseOutcome s note (erase s note)
unfolding erase sequence_is_sorted
erase_lem s note h =
    let position = partition_point (λ n. note_order_before n note) s.notes in
    outcome s note position (erase_scan note (drop position s.notes)) (
      subst (Erased note s.notes) (sym (erase_position-eq-walk note s.notes))
        (erase_walk-Erased note s.notes h))
