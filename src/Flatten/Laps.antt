-- ===== src/Flatten/Laps.antt =====
-- The occurrences of a note in a clip: those of one pass, and those of the laps of a pattern that
-- loops.
pub mod Inside
use native.Mathlib.Nat.{mod-lt, mod-add-div', add-mod_right, mod-eq_of_lt, mod_self}
use onebeat.Prelude.{
  ℕ, zero, suc, ◌+◌, ◌-◌, ◌*◌, ◌/◌, ◌%◌, ◌≤◌, ◌<◌, ◌≡◌, ◌∙◌, refl, ap, ◌⊎◌, inl, inr, true, false,
  not, ◌&&◌, ◌||◌, List, [], ◌∷◌, Option, none, some, arith, All, Bool-cases, get_elem?,
  if◌then◌else◌,
}
use onebeat.Prelude.Int.{
  ℤ, pos, negsuc, pos_part, neg_part, ◌+ℤ◌, ◌-ℤ◌, ◌≤ℤ◌, ◌<ℤ◌, ltb_ℤ, leb_ℤ, min_ℤ, +ℤ_parts,
  -ℤ_parts, eq_of_parts,
}
use onebeat.Notes.{Ticks, Note}
use onebeat.Entities.{Clip}
use onebeat.Flatten.{Occurrence, occurrence, one_pass, laps, wrap, collect_occurrences}

ℕ-cases : (n : ℕ) → (n ≡ 0) ⊎ (0 < n)
ℕ-cases zero = inl refl
ℕ-cases (suc n) = inr (omega arith)

-- `wrap` is the remainder that is not negative.
wrap_lem :
    (x : ℤ) (l : ℕ)
    → 0 < l
    → (wrap x l < l) × ((a : ℕ) × (b : ℕ) × (x +ℤ pos (a * l) ≡ pos (wrap x l + b * l)))
unfolding wrap
wrap_lem (pos x) l h =
    let e : (x % l + l) % l ≡ x % l = add-mod_right (x % l) l ∙ mod-eq_of_lt (mod-lt x h) in
    (
      omega (arith, e, mod-lt x h),
      (
        0,
        x / l,
        eq_of_parts _ _ (omega (arith, e, mod-add-div' x l, +ℤ_parts (pos x) (pos (0 * l)))),
      ),
    )
wrap_lem (negsuc x) l h = elim (ℕ-cases (suc x % l)) [
  | inl e ↦
      let d : l - suc x % l ≡ l = omega (arith, e) in
      let f : (l - suc x % l) % l ≡ 0 = ap (λ t. t % l) d ∙ mod_self l in
      (
        omega (arith, mod-lt (l - suc x % l) h),
        (
          suc x / l,
          0,
          eq_of_parts _ _ (
              rw f (
                omega
                  (arith, e, mod-add-div' (suc x) l, +ℤ_parts (negsuc x) (pos (suc x / l * l))))),
        ),
      )
  | inr e ↦
      let f : (l - suc x % l) % l ≡ l - suc x % l =
        mod-eq_of_lt (omega (arith, e, mod-lt (suc x) h)) in
      (
        omega (arith, mod-lt (l - suc x % l) h),
        (
          suc (suc x / l),
          0,
          eq_of_parts _ _ (
              rw f (
                omega (
                  arith,
                  e,
                  mod-add-div' (suc x) l,
                  mod-lt (suc x) h,
                  +ℤ_parts (negsuc x) (pos (suc (suc x / l) * l)),
                ))),
        ),
      )
]

-- The occurrence of a lap that starts at a position, where the clip and the pattern have room for it.
abbrev pub lap : Note → Clip → Ticks → Ticks → Option Occurrence
lap note clip pattern_length position =
    if ltb_ℤ position clip.length && ltb_ℤ note.start pattern_length
    then some (record {
      start = position;
      end =
          min_ℤ (min_ℤ (position +ℤ note.length) (position +ℤ (pattern_length -ℤ note.start)))
            clip.length;
    })
    else none

module _ (note : Note) (clip : Clip) (l : ℕ) (hl : 0 < l) (hn : pos 0 <ℤ note.length) where
  abbrev HasLaps : ℕ → Option (List Occurrence) → Type 0
  HasLaps first out =
      (os : List Occurrence) × (out ≡ some os)
      × ((k : ℕ) → get_elem? os k ≡ lap note clip (pos l) (pos (first + k * l)))

  no_lap :
      (first k : ℕ)
      → ltb_ℤ (pos first) clip.length ≡ false
      → none ≡ lap note clip (pos l) (pos (first + k * l))
  no_lap first k h = ground arith

  pos_add : (first : ℕ) → pos first +ℤ pos l ≡ pos (first + l)
  pos_add first = eq_of_parts _ _ (omega (arith, +ℤ_parts (pos first) (pos l)))

  abbrev lap_end : Ticks → Ticks
  lap_end position =
      min_ℤ (min_ℤ (position +ℤ note.length) (position +ℤ (pos l -ℤ note.start))) clip.length

  laps-next :
      (fuel first : ℕ) (os : List Occurrence)
      → ltb_ℤ (pos first) clip.length ≡ true
      → laps fuel note clip (pos l) (pos (first + l)) ≡ some os
      → laps (suc fuel) note clip (pos l) (pos first)
        ≡ some (occurrence (pos first) (lap_end (pos first)) os)
  unfolding laps
  laps-next fuel first os e h = rw (e, pos_add first, h, laps) refl

  -- A lap that starts in the clip sounds where the note starts in the pattern.
  pub sounds_iff :
      (position : ℤ)
      → ltb_ℤ position clip.length ≡ true
      → ltb_ℤ position (lap_end position) ≡ ltb_ℤ note.start (pos l)
  sounds_iff position e = ground (
    arith,
    +ℤ_parts position note.length,
    +ℤ_parts position (pos l -ℤ note.start),
    -ℤ_parts (pos l) note.start,
  )

  -- the occurrence of a lap, before those of the later ones
  HasLaps-occurrence :
      (first : ℕ) (os : List Occurrence)
      → ltb_ℤ (pos first) clip.length ≡ true
      → ((k : ℕ) → get_elem? os k ≡ lap note clip (pos l) (pos (first + l + k * l)))
      → (k : ℕ)
      → get_elem? (occurrence (pos first) (lap_end (pos first)) os) k
        ≡ lap note clip (pos l) (pos (first + k * l))
  HasLaps-occurrence first os e h k = elim (Bool-cases (ltb_ℤ note.start (pos l))) [
    | inl s ↦ ap (λ xs. get_elem? xs k) (shown (sounds_iff (pos first) e ∙ s)) ∙ at s k
    | inr s ↦
        ap (λ xs. get_elem? xs k) (hidden (sounds_iff (pos first) e ∙ s)) ∙ h k ∙ ground (arith, s)
  ]
    where
      shown :
          ltb_ℤ (pos first) (lap_end (pos first)) ≡ true
          → occurrence (pos first) (lap_end (pos first)) os
            ≡ record { start = pos first; end = lap_end (pos first) } ∷ os
      shown t = rw t refl

      hidden :
          ltb_ℤ (pos first) (lap_end (pos first)) ≡ false
          → occurrence (pos first) (lap_end (pos first)) os ≡ os
      hidden t = rw t refl

      at :
          ltb_ℤ note.start (pos l) ≡ true
          → (k : ℕ)
          → get_elem? (record { start = pos first; end = lap_end (pos first) } ∷ os) k
            ≡ lap note clip (pos l) (pos (first + k * l))
      at s zero = ground (arith, e, s)
      at s (suc k) = h k ∙ ap (λ p. lap note clip (pos l) (pos p)) (omega arith)

  laps_lem :
      (fuel first : ℕ)
      → pos_part clip.length ≤ first + fuel
      → HasLaps first (laps (suc fuel) note clip (pos l) (pos first))
  unfolding laps
  laps_lem zero first h = elim (Bool-cases (ltb_ℤ (pos first) clip.length)) [
    | inl e ↦ absurd (ground arith)
    | inr e ↦ rw (e, laps) ([], refl, λ k. no_lap first k e)
  ]
  laps_lem (suc fuel) first h = elim (Bool-cases (ltb_ℤ (pos first) clip.length)) [
    | inl e ↦
        let later = laps_lem fuel (first + l) (omega arith) in
        (
          occurrence (pos first) (lap_end (pos first)) later.0,
          laps-next (suc fuel) first later.0 e later.1,
          HasLaps-occurrence first later.0 e later.2,
        )
    | inr e ↦ rw (e, laps) ([], refl, λ k. no_lap first k e)
  ]

-- The single pass of a clip that does not loop: the lap at the note's own place.
abbrev pub own_lap : Note → Clip → Ticks → List Occurrence
own_lap note clip pattern_length =
    let offset = note.start -ℤ clip.transforms.window_start in
    elim (if ltb_ℤ offset (pos 0) then none else lap note clip pattern_length offset) [
      | none ↦ []
      | some o ↦ o ∷ []
    ]

min_turn : (a b c : ℤ) → min_ℤ (min_ℤ a c) b ≡ min_ℤ (min_ℤ a b) c
min_turn a b c = ground arith

one_pass_lem :
    (note : Note) (clip : Clip) (l : ℕ) (offset : ℤ)
    → 0 < l
    → pos 0 <ℤ note.length
    → one_pass note clip (pos l) offset
      ≡ elim (if ltb_ℤ offset (pos 0) then none else lap note clip (pos l) offset) [
        | none ↦ []
        | some o ↦ o ∷ []
      ]
one_pass_lem note clip l offset hl h =
    rw (min_turn (offset +ℤ note.length) (offset +ℤ (pos l -ℤ note.start)) clip.length)
      (elim (Bool-cases (ltb_ℤ offset clip.length)) [
        | inl e ↦ rw (sounds_iff note clip l hl h offset e) (ground (arith, e))
        | inr e ↦ ground (arith, e)
      ])

-- Where the three guards pass.
collect-passes :
    (note : Note) (clip : Clip) (l : ℕ)
    → 0 < l
    → pos 0 <ℤ clip.length
    → pos 0 <ℤ note.length
    → let offset = note.start -ℤ clip.transforms.window_start in
      collect_occurrences note clip (pos l) ≡ (
        if not clip.transforms.loop
        then some (one_pass note clip (pos l) offset)
        else laps (suc (pos_part clip.length)) note clip (pos l) (pos (wrap offset l)))
unfolding collect_occurrences
collect-passes note clip l hl hc hn =
    let a : leb_ℤ (pos l) (pos 0) ≡ false = ground arith in
    let b : leb_ℤ clip.length (pos 0) ≡ false = ground arith in
    let c : leb_ℤ note.length (pos 0) ≡ false = ground arith in rw (a, b, c) refl

-- For a pattern and a clip that are not empty and a note with a length: in a clip that does not loop the
-- note has the one occurrence at its own place, if that is in the clip. In a clip that loops the loop
-- ends, and the k-th occurrence is the lap k patterns after the first, as long as that starts in the clip;
-- the first starts in the first pattern's length, where the note falls counted from the window, up to
-- whole patterns. A note that starts at the end of the pattern or after it has none.
pub collect_occurrences_lem :
    (note : Note) (clip : Clip) (l : ℕ)
    → 0 < l
    → pos 0 <ℤ clip.length
    → pos 0 <ℤ note.length
    → (clip.transforms.loop ≡ false
        → collect_occurrences note clip (pos l) ≡ some (own_lap note clip (pos l)))
      × (clip.transforms.loop ≡ true
          → (first : ℕ) × (a : ℕ) × (b : ℕ) × (os : List Occurrence) × (first < l)
            × (note.start +ℤ pos (a * l) ≡ clip.transforms.window_start +ℤ pos (first + b * l))
            × (collect_occurrences note clip (pos l) ≡ some os)
            × ((k : ℕ) → get_elem? os k ≡ lap note clip (pos l) (pos (first + k * l))))
collect_occurrences_lem note clip l hl hc hn = (
  λ e.
      collect-passes note clip l hl hc hn
      ∙ rw (e)
          (ap some (one_pass_lem note clip l (note.start -ℤ clip.transforms.window_start) hl hn)),
  λ e.
      let offset = note.start -ℤ clip.transforms.window_start in
      let w = wrap_lem offset l hl in
      let r = laps_lem note clip l hl hn (pos_part clip.length) (wrap offset l) (omega arith) in
      (
        wrap offset l,
        w.1.0,
        w.1.1,
        r.0,
        w.0,
        eq_of_parts _ _ (
            omega (
              arith,
              ap pos_part w.1.2,
              ap neg_part w.1.2,
              -ℤ_parts note.start clip.transforms.window_start,
              +ℤ_parts offset (pos (w.1.0 * l)),
              +ℤ_parts note.start (pos (w.1.0 * l)),
              +ℤ_parts clip.transforms.window_start (pos (wrap offset l + w.1.1 * l)),
            )),
        collect-passes note clip l hl hc hn ∙ rw (ap not e) r.1,
        r.2,
      ),
)
