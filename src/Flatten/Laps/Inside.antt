-- ===== src/Flatten/Laps/Inside.antt =====
-- Where the occurrences of `collectOccurrences` in engine/src/model/flattener.cpp lie.
use onebeat.Prelude.{
  ℕ, suc, ◌+◌, ◌*◌, ◌<◌, ◌≡◌, refl, inl, inr, true, ◌&&◌, ◌||◌, List, [], ◌∷◌, Option, none, some,
  arith, All, Bool-cases, get_elem?, if◌then◌else◌,
}
use onebeat.Prelude.Int.{ℤ, pos, negsuc, ◌-ℤ◌, ◌≤ℤ◌, ◌<ℤ◌, ltb_ℤ, leb_ℤ}
use onebeat.Notes.{Ticks, Note}
use onebeat.Entities.{Clip}
use onebeat.Flatten.{Occurrence, collect_occurrences}
use onebeat.Flatten.Laps.{lap, own_lap, sounds_iff, collect_occurrences_lem}

-- It has a length and lies inside the clip.
abbrev pub InClip : Clip → Occurrence → Type 0
InClip clip o = (pos 0 ≤ℤ o.start) × (o.start <ℤ o.end) × (o.end ≤ℤ clip.length)

abbrev OnSome : (Occurrence → Type 0) → Option Occurrence → Type 0
OnSome P none = Unit
OnSome P (some o) = P o

All-get_elem :
    (P : Occurrence → Type 0) (os : List Occurrence)
    → ((k : ℕ) → OnSome P (get_elem? os k))
    → All P os
All-get_elem P [] h = tt
All-get_elem P (o ∷ os) h = (h 0, All-get_elem P os (λ k. h (suc k)))

lap-InClip :
    (note : Note) (clip : Clip) (l : ℕ) (position : ℤ)
    → 0 < l
    → pos 0 <ℤ note.length
    → pos 0 ≤ℤ position
    → OnSome (InClip clip) (lap note clip (pos l) position)
lap-InClip note clip l position hl hn h =
    elim (Bool-cases (ltb_ℤ position clip.length && ltb_ℤ note.start (pos l))) [
      | inl e ↦
          let s = sounds_iff note clip l hl hn position (ground (arith, e)) in
          rw e (h, ground (arith, e), ground arith)
      | inr e ↦ rw e tt
    ]

All_of_some :
    (P : Occurrence → Type 0) (o : Option Occurrence)
    → OnSome P o
    → All P (elim o [ none ↦ [] | some o ↦ o ∷ [] ])
All_of_some P none h = tt
All_of_some P (some o) h = (h, tt)

own_lap-InClip :
    (note : Note) (clip : Clip) (l : ℕ) (offset : ℤ)
    → 0 < l
    → pos 0 <ℤ note.length
    → All
        (InClip clip)
        (elim (if ltb_ℤ offset (pos 0) then none else lap note clip (pos l) offset) [
          | none ↦ []
          | some o ↦ o ∷ []
        ])
own_lap-InClip note clip l offset hl hn = elim (Bool-cases (ltb_ℤ offset (pos 0))) [
  | inl e ↦ rw e tt
  | inr e ↦ rw e (
      All_of_some (InClip clip) (lap note clip (pos l) offset)
        (lap-InClip note clip l offset hl hn (ground (arith, e))))
]

collect-InClip :
    (note : Note) (clip : Clip) (l : ℕ)
    → 0 < l
    → pos 0 <ℤ clip.length
    → pos 0 <ℤ note.length
    → (os : List Occurrence) × (collect_occurrences note clip (pos l) ≡ some os)
      × All (InClip clip) os
collect-InClip note clip l hl hc hn = elim (Bool-cases clip.transforms.loop) [
  | inl e ↦
      let r = (collect_occurrences_lem note clip l hl hc hn).1 e in
      (
        r.3,
        r.6,
        All-get_elem (InClip clip) r.3
            (λ k. rw (r.7 k) (lap-InClip note clip l (pos (r.0 + k * l)) hl hn (omega arith))),
      )
  | inr e ↦ (
    own_lap note clip (pos l),
    (collect_occurrences_lem note clip l hl hc hn).0 e,
    own_lap-InClip note clip l (note.start -ℤ clip.transforms.window_start) hl hn,
  )
]

-- The loop ends for every note, clip and length, and each occurrence that it gives has a length and lies
-- inside the clip.
pub collect_occurrences-InClip :
    (note : Note) (clip : Clip) (pattern_length : Ticks)
    → (os : List Occurrence) × (collect_occurrences note clip pattern_length ≡ some os)
      × All (InClip clip) os
unfolding collect_occurrences
collect_occurrences-InClip note clip (negsuc n) =
    let e : leb_ℤ (negsuc n) (pos 0) ≡ true = ground arith in
    ([], rw (e, collect_occurrences) refl, tt)
collect_occurrences-InClip note clip (pos l) =
    elim (Bool-cases
      (leb_ℤ (pos l) (pos 0) || leb_ℤ clip.length (pos 0) || leb_ℤ note.length (pos 0))) [
        | inl e ↦ ([], rw (e, collect_occurrences) refl, tt)
        | inr e ↦
            collect-InClip note clip l (ground (arith, e)) (ground (arith, e)) (ground (arith, e))
      ]
