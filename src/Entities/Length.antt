-- ===== src/Entities/Length.antt =====
-- How long a pattern plays, against what it holds.
use onebeat.Prelude.{◌%◌, ◌≡◌, arith, [], ◌∷◌, All}
use onebeat.Prelude.Int.{pos, pos_part, ◌≤ℤ◌, ◌<ℤ◌, ◌+ℤ◌, max_ℤ, +ℤ_parts}
use onebeat.Prelude.Map.{Map}
use onebeat.Notes.{Ticks, NoteSequence, content_end}
use onebeat.Ids.{InstrumentId}
use onebeat.Entities.{
  Pattern, sequences_end, pattern_content_end, pattern_loop_length, pattern_effective_length,
}

-- every note of every sequence ends by `end`
abbrev pub AllEndBy : Ticks → Map InstrumentId NoteSequence → Type 0
AllEndBy end m = All (λ e. content_end e.1 ≤ℤ end) m

sequences_end-bounds :
    (end : Ticks) (m : Map InstrumentId NoteSequence)
    → (end ≤ℤ sequences_end end m) × AllEndBy (sequences_end end m) m
unfolding sequences_end
sequences_end-bounds end [] = (omega arith, tt)
sequences_end-bounds end ((i, s) ∷ rest) =
    let later = sequences_end-bounds (max_ℤ end (content_end s)) rest in
    (ground (arith, later.0), (ground (arith, later.0), later.1))

AllEndBy-weaken :
    (a b : Ticks) (m : Map InstrumentId NoteSequence) → a ≤ℤ b → AllEndBy a m → AllEndBy b m
AllEndBy-weaken a b [] h t = tt
AllEndBy-weaken a b (e ∷ m) h t = (omega arith, AllEndBy-weaken a b m h t.1)

content-le-loop : (p : Pattern) → pattern_content_end p ≤ℤ pattern_loop_length p
unfolding pattern_loop_length
content-le-loop p = ground arith

content_end-AllEndBy : (p : Pattern) → AllEndBy (pattern_content_end p) p.sequences
unfolding pattern_content_end
content_end-AllEndBy p = (sequences_end-bounds (pos 0) p.sequences).1

content-le-effective : (p : Pattern) → pattern_content_end p ≤ℤ pattern_effective_length p
unfolding pattern_effective_length
content-le-effective p = ground (arith, content-le-loop p)

effective_pos : (p : Pattern) → pos 0 <ℤ pattern_effective_length p
unfolding pattern_effective_length pattern_loop_length
effective_pos p = ground arith

declared-le-effective : (p : Pattern) → p.length ≤ℤ pattern_effective_length p
unfolding pattern_effective_length
declared-le-effective p = ground (arith, content-le-loop p)

effective-declared :
    (p : Pattern)
    → pos 0 <ℤ p.length
    → pattern_content_end p ≤ℤ p.length
    → pattern_effective_length p ≡ p.length
unfolding pattern_effective_length
effective-declared p h k = ground arith

effective_grown :
    (p : Pattern)
    → pos 0 <ℤ pattern_content_end p
    → p.length <ℤ pattern_content_end p
    → (pos_part (pattern_effective_length p) % 3840 ≡ 0)
      × (pattern_effective_length p <ℤ pattern_content_end p +ℤ pos 3840)
unfolding pattern_effective_length pattern_loop_length
effective_grown p h k = ground (arith, +ℤ_parts (pattern_content_end p) (pos 3840))

-- The effective length of a pattern is positive, is not below the declared length, and holds the
-- content of every sequence. Where a positive declared length holds the content it is that length;
-- where the content passes the declared length it is a whole number of bars, and the least such one.
pub pattern_effective_length_lem :
    (p : Pattern)
    → (pos 0 <ℤ pattern_effective_length p)
      × (p.length ≤ℤ pattern_effective_length p)
      × AllEndBy (pattern_effective_length p) p.sequences
      × (pos 0 <ℤ p.length
          → pattern_content_end p ≤ℤ p.length
          → pattern_effective_length p ≡ p.length)
      × (pos 0 <ℤ pattern_content_end p
          → p.length <ℤ pattern_content_end p
          → (pos_part (pattern_effective_length p) % 3840 ≡ 0)
            × (pattern_effective_length p <ℤ pattern_content_end p +ℤ pos 3840))
pattern_effective_length_lem p = (
  effective_pos p,
  declared-le-effective p,
  AllEndBy-weaken _ _ p.sequences (content-le-effective p) (content_end-AllEndBy p),
  effective-declared p,
  effective_grown p,
)
