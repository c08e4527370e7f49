-- ===== src/Realtime/Ring/Slots.antt =====
-- Positions and their slots.
use onebeat.Prelude.{ℕ, ◌+◌, ◌-◌, ◌%◌, ◌<◌, ◌≡◌, ◌≢◌, ◌∙◌, ap, arith}
use native.Mathlib.Nat.{mod-add-mod, mod-eq_of_lt, mod-eq-sub-mod}
use native.Mathlib.Decide.{dec_lt}
use onebeat.Realtime.Ring.{slot}

pub slot-lt : (c p : ℕ) → 0 < c → slot c p < c
unfolding slot
slot-lt c p h = grind arith

pub slot-of_lt : (c p : ℕ) → p < c → slot c p ≡ p
unfolding slot
slot-of_lt c p h = mod-eq_of_lt h

pub slot-add_capacity : (c p : ℕ) → 0 < c → slot c (p + c) ≡ slot c p
unfolding slot
slot-add_capacity c p h =
    mod-eq-sub-mod {n = p + c} {m = c} (omega arith) ∙ ap (λ k. k % c) (omega arith)

-- fewer than `c` steps round the ring do not come back
round-ne : (c h d : ℕ) → h < c → 0 < d → d < c → (h + d) % c ≢ h
round-ne c h d hh a b = elim (dec_lt (h + d) c) [
  | yes p ↦ omega (arith, mod-eq_of_lt p)
  | no p ↦ omega (
    arith,
    mod-eq-sub-mod {n = h + d} {m = c} (omega arith),
    mod-eq_of_lt {n = h + d - c} {m = c} (omega arith),
  )
]

pub slot-ne : (c p q : ℕ) → p < q → q < p + c → slot c q ≢ slot c p
unfolding slot
slot-ne c p q a b e =
    round-ne c (p % c) (q - p) (grind arith) (omega arith) (omega arith)
      (mod-add-mod p c (q - p) ∙ ap (λ k. k % c) (omega arith) ∙ e)
