-- ===== src/Ids/Ulid.antt =====
-- Reading back what `encodeUlid` writes.
use native.Mathlib.Nat.{
  pow-suc, add-zero, add-suc, mul_assoc, div-div-eq-div-mul, mul-add-div_right, div-le_self,
}
use onebeat.Prelude.{
  ℕ, zero, suc, ◌+◌, ◌-◌, ◌*◌, ◌/◌, ◌%◌, ◌^◌, ◌<◌, ◌≡◌, refl, sym, ap, ◌∙◌, inl, inr, Bool, true,
  false, ◌&&◌, none, some, arith, leb, ◌==◌, ==_iff, length, Bool-cases,
}
use onebeat.Ids.{
  RawId, digit, five_bits_at, encode_from, encode_ulid, shift_in, decode_char, decode_from,
  decode_ulid,
}

-- The 128-bit value of an id.
abbrev pub value : RawId → ℕ
value id = id.high * 2 ^ 64 + id.low

-- Both words are `uint64_t`.
pub record IsRawId (id : RawId) : Type 0 where
  pub high_word : id.high < 2 ^ 64
  pub low_word : id.low < 2 ^ 64

pow_add : (a b : ℕ) → 2 ^ (a + b) ≡ 2 ^ a * 2 ^ b
pow_add a zero = rw add-zero (omega arith)
pow_add a (suc b) = rw (add-suc, pow-suc, pow-suc, pow_add a b) (mul_assoc (2 ^ a) (2 ^ b) 2)

pow_pos : (s : ℕ) → 0 < 2 ^ s
pow_pos zero = omega arith
pow_pos (suc s) = omega (arith, pow-suc 2 s, pow_pos s)

decodes : ℕ → Bool
decodes v = elim (decode_char (digit v)) [ none ↦ false | some w ↦ w == v ]

decodes_below : ℕ → Bool
decodes_below zero = true
decodes_below (suc n) = decodes n && decodes_below n

decodes_below_sound : (n v : ℕ) → decodes_below n ≡ true → v < n → decodes v ≡ true
unfolding decodes_below
decodes_below_sound zero v h lt = absurd (omega arith)
decodes_below_sound (suc n) v h lt = ground (arith, decodes_below_sound n v)

decodes_table : decodes_below 32 ≡ true
unfolding decodes_below decodes decode_char digit
decodes_table = refl

decode_char-digit : (v : ℕ) → v < 32 → decode_char (digit v) ≡ some v
unfolding decodes
decode_char-digit v h = ground (arith, decodes_below_sound 32 v decodes_table h)

five_bits_high : (id : RawId) (t : ℕ) → IsRawId id → value id / 2 ^ (64 + t) ≡ id.high / 2 ^ t
five_bits_high id t w =
    rw (pow_add 64 t, ← div-div-eq-div-mul (value id) (2 ^ 64) (2 ^ t))
      (ap (λ h. h / 2 ^ t) (omega (arith, w.low_word)))

five_bits_low :
    (id : RawId) (s t : ℕ) → t + s ≡ 64 → value id / 2 ^ s ≡ id.high * 2 ^ t + id.low / 2 ^ s
five_bits_low id s t e =
    ap (λ n. n / 2 ^ s) split ∙ mul-add-div_right (pow_pos s) (id.high * 2 ^ t) id.low
  where
    split : value id ≡ id.high * 2 ^ t * 2 ^ s + id.low
    split =
        ap (λ n. id.high * n + id.low) (ap (λ n. 2 ^ n) (sym e) ∙ pow_add t s)
        ∙ ap (λ n. n + id.low) (sym (mul_assoc id.high (2 ^ t) (2 ^ s)))

five_bits_lem : (id : RawId) (s : ℕ) → IsRawId id → five_bits_at id s ≡ (value id / 2 ^ s) % 32
unfolding five_bits_at
five_bits_lem id s w = elim (Bool-cases (leb 64 s)) [
  | inl e ↦
      rw (e, five_bits_at)
        (ap (λ n. n % 32)
          (sym (five_bits_high id (s - 64) w) ∙ ap (λ n. value id / 2 ^ n) (ground arith)))
  | inr e ↦ elim (Bool-cases (s == 0)) [
    | inl z ↦ let s0 : s ≡ 0 = (==_iff s 0).0 z in rw (s0, five_bits_at) (omega arith)
    | inr z ↦ rw (e, z, five_bits_at) (omega (arith, five_bits_low id s (64 - s) (ground arith)))
  ]
]

shift_in_lem :
    (id : RawId) (v : ℕ)
    → IsRawId id
    → v < 32
    → IsRawId (shift_in id v) × (value (shift_in id v) ≡ (value id * 32 + v) % 2 ^ 128)
unfolding shift_in
shift_in_lem id v w h = (omega arith, omega arith)

value_injective : (a b : RawId) → IsRawId a → IsRawId b → value a ≡ value b → a ≡ b
value_injective a b u v e = ground arith

next_value :
    (id : RawId) (n : ℕ)
    → value id / 2 ^ (5 * n) ≡ value id / 2 ^ (5 * suc n) * 32 + (value id / 2 ^ (5 * n)) % 32
next_value id n =
    omega (arith, ap (λ m. value id / m) power, div-div-eq-div-mul (value id) (2 ^ (5 * n)) 32)
  where
    power : 2 ^ (5 * suc n) ≡ 2 ^ (5 * n) * 32
    power = ap (λ m. 2 ^ m) {x = 5 * suc n} {y = 5 * n + 5} (omega arith) ∙ pow_add (5 * n) 5

shifted_value :
    (id acc : RawId) (n : ℕ)
    → IsRawId id
    → value acc ≡ value id / 2 ^ (5 * suc n)
    → five_bits_at id (5 * n) ≡ (value id / 2 ^ (5 * n)) % 32
    → value (shift_in acc (five_bits_at id (5 * n)))
      ≡ (value acc * 32 + five_bits_at id (5 * n)) % 2 ^ 128
    → value (shift_in acc (five_bits_at id (5 * n))) ≡ value id / 2 ^ (5 * n)
shifted_value id acc n w e bits s =
    omega (arith, next_value id n, div-le_self (value id) (2 ^ (5 * n)))

decode_from-encode_from :
    (id acc : RawId) (n : ℕ)
    → IsRawId id
    → IsRawId acc
    → value acc ≡ value id / 2 ^ (5 * n)
    → decode_from acc (encode_from id n) ≡ some id
unfolding decode_from encode_from
decode_from-encode_from id acc zero w u e = ap some (value_injective acc id u w (omega arith))
decode_from-encode_from id acc (suc n) w u e =
    let bits = five_bits_lem id (5 * n) w in
    let small : five_bits_at id (5 * n) < 32 = omega (arith, bits) in
    let (u', e') = shift_in_lem acc (five_bits_at id (5 * n)) u small in
    rw (decode_char-digit (five_bits_at id (5 * n)) small, decode_from)
      (decode_from-encode_from id (shift_in acc (five_bits_at id (5 * n))) n w u'
        (shifted_value id acc n w e bits e'))

length-encode_from : (id : RawId) (n : ℕ) → length (encode_from id n) ≡ n
unfolding encode_from
length-encode_from id zero = refl
length-encode_from id (suc n) = ap suc (length-encode_from id n)

-- Every 128-bit id is read back from the 26 characters that are written for it.
pub decode_ulid-encode_ulid : (id : RawId) → IsRawId id → decode_ulid (encode_ulid id) ≡ some id
unfolding decode_ulid encode_ulid
decode_ulid-encode_ulid id w = rw (length-encode_from id 26) (
    decode_from-encode_from id (record { high = 0; low = 0 }) 26 w
      (record { high_word = omega arith; low_word = omega arith }) (omega arith))

pub length-encode_ulid : (id : RawId) → length (encode_ulid id) ≡ 26
unfolding encode_ulid
length-encode_ulid id = length-encode_from id 26
