-- ===== src/Flatten/Order.antt =====
-- The comparison of `resolveOverlaps` in engine/src/model/flattener.cpp.
use onebeat.Prelude.{◌≡◌, ◌⊎◌, inl, inr, true, false, arith, ◌+◌, ◌<◌, ◌≤◌}
use onebeat.Prelude.Int.{pos_part, neg_part, ◌≤ℤ◌, ◌<ℤ◌, eq_of_parts}
use onebeat.Prelude.Sorting.{StrictWeak}
use onebeat.Flatten.{ResolvedNote, note_before}

note_asymm : (a b : ResolvedNote) → note_before a b ≡ true → note_before b a ≡ false
unfolding note_before
note_asymm a b h = ground arith

-- `a` comes first or the two are equivalent
abbrev EndsFirst : ResolvedNote → ResolvedNote → Type 0
EndsFirst a b = (a.start <ℤ b.start) ⊎ ((a.start ≤ℤ b.start) × (a.end ≤ℤ b.end))

abbrev LowerFirst : ResolvedNote → ResolvedNote → Type 0
LowerFirst a b = (a.key <ℤ b.key) ⊎ ((a.key ≤ℤ b.key) × EndsFirst a b)

abbrev NotAfter : ResolvedNote → ResolvedNote → Type 0
NotAfter a b = (a.instrument < b.instrument) ⊎ ((a.instrument ≤ b.instrument) × LowerFirst a b)

pub before→NotAfter : (a b : ResolvedNote) → note_before b a ≡ false → NotAfter a b
unfolding note_before
before→NotAfter a b h = ground arith

NotAfter→before : (a b : ResolvedNote) → NotAfter a b → note_before b a ≡ false
unfolding note_before
NotAfter→before a b h = ground arith

EndsFirst-trans : (a b c : ResolvedNote) → EndsFirst a b → EndsFirst b c → EndsFirst a c
EndsFirst-trans a b c h k = ground arith

LowerFirst-trans : (a b c : ResolvedNote) → LowerFirst a b → LowerFirst b c → LowerFirst a c
LowerFirst-trans a b c (inl h) k = inl (ground arith)
LowerFirst-trans a b c (inr h) (inl k) = inl (omega arith)
LowerFirst-trans a b c (inr h) (inr k) = inr (omega arith, EndsFirst-trans a b c h.1 k.1)

NotAfter-trans : (a b c : ResolvedNote) → NotAfter a b → NotAfter b c → NotAfter a c
NotAfter-trans a b c (inl h) k = inl (ground arith)
NotAfter-trans a b c (inr h) (inl k) = inl (omega arith)
NotAfter-trans a b c (inr h) (inr k) = inr (omega arith, LowerFirst-trans a b c h.1 k.1)

pub note_order : StrictWeak note_before
note_order = record {
  asymm = note_asymm;
  le_trans = λ a b c h k.
      NotAfter→before a c (NotAfter-trans a b c (before→NotAfter a b h) (before→NotAfter b c k));
}

-- A note between two with the key of one instrument has it too, and starts no later than the second.
pub between :
    (x y z : ResolvedNote)
    → note_before y x ≡ false
    → note_before z y ≡ false
    → x.instrument ≡ z.instrument
    → x.key ≡ z.key
    → (x.instrument ≡ y.instrument) × (x.key ≡ y.key) × (y.start ≤ℤ z.start)
between x y z h k i e =
    let a : NotAfter x y = before→NotAfter x y h in
    let b : NotAfter y z = before→NotAfter y z k in
    let j : x.instrument ≡ y.instrument = omega arith in
    let f : pos_part x.key + neg_part y.key ≡ pos_part y.key + neg_part x.key = ground arith in
    (j, eq_of_parts x.key y.key f, ground arith)

pub same_start :
    (x y : ResolvedNote)
    → note_before y x ≡ false
    → x.instrument ≡ y.instrument
    → x.key ≡ y.key
    → EndsFirst x y
same_start x y h i e = let a : NotAfter x y = before→NotAfter x y h in ground arith
