-- ===== src/Ids.antt =====
-- Entity identity: engine/src/model/ids.h and ids.cpp. A `uint64_t` is a number below 2 ^ 64, with its
-- wrap-around written out; text is the list of its bytes.
pub mod Order
pub mod Ulid
pub mod Generator
pub mod Text
use Prim.Native.Nat.{bit_xor}
use Prim.Native.Char.{code}
use Prim.Native.String
use Prim.Native.String.{String}
use onebeat.Prelude.{
  ℕ, zero, suc, ◌+◌, ◌-◌, ◌*◌, ◌/◌, ◌%◌, ◌^◌, Bool, true, false, ◌&&◌, ◌||◌, not, Option, none,
  some, List, [], ◌∷◌, ◌++◌, ltb, leb, ◌==◌, if◌then◌else◌, length, get_elem?, take, drop,
}

pub data EntityKind : Type 0 where
  instrument pattern arrangement_lane clip mixer_track effect project : EntityKind

-- The bytes of a text, if it is ASCII.
abbrev pub codes : String → List ℕ
codes String.[] = []
codes (String.◌∷◌ c s) = code c ∷ codes s

pub entity_prefix : EntityKind → List ℕ
entity_prefix EntityKind.instrument = codes "ins"
entity_prefix EntityKind.pattern = codes "pat"
entity_prefix EntityKind.arrangement_lane = codes "lan"
entity_prefix EntityKind.clip = codes "clp"
entity_prefix EntityKind.mixer_track = codes "mix"
entity_prefix EntityKind.effect = codes "efx"
entity_prefix EntityKind.project = codes "prj"

-- A 128-bit ULID with no type attached.
pub record RawId : Type 0 where
  pub high : ℕ
  pub low : ℕ

unfoldable pub raw_valid : RawId → Bool
raw_valid r = not (r.high == 0) || not (r.low == 0)

unfoldable pub raw_eq : RawId → RawId → Bool
raw_eq a b = a.high == b.high && a.low == b.low

unfoldable pub raw_lt : RawId → RawId → Bool
raw_lt a b = if not (a.high == b.high) then ltb a.high b.high else ltb a.low b.low

-- `TypedId<K>`: an id of one kind is no id of another.
pub record TypedId (K : EntityKind) : Type 0 where
  pub raw : RawId

abbrev pub InstrumentId : Type 0
InstrumentId = TypedId EntityKind.instrument

abbrev pub PatternId : Type 0
PatternId = TypedId EntityKind.pattern

abbrev pub ArrangementLaneId : Type 0
ArrangementLaneId = TypedId EntityKind.arrangement_lane

abbrev pub ClipId : Type 0
ClipId = TypedId EntityKind.clip

abbrev pub MixerTrackId : Type 0
MixerTrackId = TypedId EntityKind.mixer_track

abbrev pub EffectId : Type 0
EffectId = TypedId EntityKind.effect

-- `TypedId{}`, the id that no entity has.
abbrev pub no_id : {K : EntityKind} → TypedId K
no_id = record { raw = record { high = 0; low = 0 } }

-- Crockford base32.
abbrev pub alphabet : List ℕ
alphabet = codes "0123456789ABCDEFGHJKMNPQRSTVWXYZ"

abbrev pub ulid_chars : ℕ
ulid_chars = 26

-- The two shifted words have no bit in common, so their `|` is a sum.
five_bits_at : RawId → ℕ → ℕ
five_bits_at id shift =
    if leb 64 shift
    then (id.high / 2 ^ (shift - 64)) % 32
    else if shift == 0
    then id.low % 32
    else (id.low / 2 ^ shift + id.high * 2 ^ (64 - shift) % 2 ^ 64) % 32

-- The index of a byte in a list of bytes, counted from `i`.
index_of : ℕ → ℕ → List ℕ → Option ℕ
index_of c i [] = none
index_of c i (a ∷ as') = let rest = index_of c (i + 1) as' in if a == c then some i else rest

-- `none` for the -1 of the source.
decode_char : ℕ → Option ℕ
unfolding index_of
decode_char c = elim (index_of c 0 alphabet) [
  | some i ↦ some i
  | none ↦
      if c == b'i' || (c == b'I' || (c == b'l' || c == b'L'))
      then some 1
      else if c == b'o' || c == b'O'
      then some 0
      else if leb b'a' c && leb c b'z'
      then index_of (c - 32) 0 alphabet
      else none
]

-- The digit of a value below 32.
digit : ℕ → ℕ
digit v = elim (get_elem? alphabet v) [ some c ↦ c | none ↦ 0 ]

-- The loop of `encodeUlid` with `n` characters to go; the last one has shift 0.
encode_from : RawId → ℕ → List ℕ
encode_from id zero = []
encode_from id (suc n) = digit (five_bits_at id (5 * n)) ∷ encode_from id n

pub encode_ulid : RawId → List ℕ
encode_ulid id = encode_from id ulid_chars

-- One digit shifted into the 128-bit value.
shift_in : RawId → ℕ → RawId
shift_in id v = record {
  high = id.high * 2 ^ 5 % 2 ^ 64 + id.low / 2 ^ 59;
  low = id.low * 2 ^ 5 % 2 ^ 64 + v;
}

decode_from : RawId → List ℕ → Option RawId
decode_from id [] = some id
decode_from id (c ∷ cs) = elim (decode_char c) [
  | none ↦ none
  | some v ↦ decode_from (shift_in id v) cs
]

pub decode_ulid : List ℕ → Option RawId
decode_ulid text =
    if length text == ulid_chars then decode_from (record { high = 0; low = 0 }) text else none

list_eq : List ℕ → List ℕ → Bool
list_eq [] [] = true
list_eq [] (y ∷ ys) = false
list_eq (x ∷ xs) [] = false
list_eq (x ∷ xs) (y ∷ ys) = x == y && list_eq xs ys

-- `TypedId::str`.
pub id_str : {K : EntityKind} → TypedId K → List ℕ
id_str {K} id = entity_prefix K ++ (b'_' ∷ encode_ulid id.raw)

-- `TypedId::parse`.
pub id_parse : (K : EntityKind) → List ℕ → Option (TypedId K)
id_parse K text =
    let prefix = entity_prefix K in
    if not (length text == length prefix + 1 + ulid_chars)
    then none
    else if not (list_eq (take (length prefix) text) prefix)
    then none
    else if not (elim (get_elem? text (length prefix)) [ some c ↦ c == b'_' | none ↦ false ])
    then none
    else elim (decode_ulid (drop (length prefix + 1) text)) [
      | none ↦ none
      | some raw ↦ some (record { raw = raw })
    ]

-- The readings of the system clock, in the order of the calls, are a parameter of the generator.
pub record IdGenerator : Type 0 where
  pub clock : ℕ → ℕ
  pub reads : ℕ
  pub rng_state : ℕ
  pub fixed_now_ms : ℕ
  pub is_deterministic : Bool
  pub last_ms : ℕ
  pub last_random_high : ℕ
  pub last_random_low : ℕ
  pub has_last : Bool

-- The constructor; `seed | 1` sets the lowest bit.
new_generator : (ℕ → ℕ) → ℕ → ℕ → Bool → IdGenerator
new_generator clock seed start_unix_ms is_deterministic = record {
  clock = clock;
  reads = 0;
  rng_state = if seed % 2 == 0 then seed + 1 else seed;
  fixed_now_ms = start_unix_ms;
  is_deterministic = is_deterministic;
  last_ms = 0;
  last_random_high = 0;
  last_random_low = 0;
  has_last = false;
}

-- `IdGenerator::deterministic`.
pub deterministic : ℕ → ℕ → IdGenerator
unfolding new_generator
deterministic seed start_unix_ms = new_generator (λ _. 0) seed start_unix_ms true

unfoldable pub now_milliseconds : IdGenerator → ℕ × IdGenerator
now_milliseconds g =
    if g.is_deterministic
    then (g.fixed_now_ms, g)
    else (g.clock g.reads % 2 ^ 48, record g { reads = g.reads + 1 })

-- splitmix64.
unfoldable pub next_random : IdGenerator → ℕ × IdGenerator
next_random g =
    let state = (g.rng_state + 0x9E3779B97F4A7C15) % 2 ^ 64 in
    let z1 = bit_xor state (state / 2 ^ 30) * 0xBF58476D1CE4E5B9 % 2 ^ 64 in
    let z2 = bit_xor z1 (z1 / 2 ^ 27) * 0x94D049BB133111EB % 2 ^ 64 in
    (bit_xor z2 (z2 / 2 ^ 31), record g { rng_state = state })

-- A redraw of the 80 random bits for a new millisecond.
unfoldable pub redraw : ℕ → IdGenerator → IdGenerator
redraw ms g =
    let (high, g1) = next_random g in
    let (low, g2) = next_random g1 in
    record g2 {
      last_ms = ms;
      last_random_high = high % 2 ^ 16;
      last_random_low = low;
      has_last = true;
    }

-- The 80 random bits, counted up.
unfoldable pub count_up : IdGenerator → IdGenerator
count_up g =
    let low = (g.last_random_low + 1) % 2 ^ 64 in
    record g {
      last_random_low = low;
      last_random_high = if low == 0 then (g.last_random_high + 1) % 2 ^ 16 else g.last_random_high;
    }

-- The shifted milliseconds and the 16 random bits have no bit in common, so their `|` is a sum.
unfoldable pub next_raw : IdGenerator → RawId × IdGenerator
next_raw g =
    let (ms, g') = now_milliseconds g in
    let g'' = if g'.has_last && ms == g'.last_ms then count_up g' else redraw ms g' in
    (
      record { high = (ms % 2 ^ 48) * 2 ^ 16 + g''.last_random_high; low = g''.last_random_low },
      g'',
    )

-- `next<K>`.
abbrev pub next_id : {K : EntityKind} → IdGenerator → TypedId K × IdGenerator
next_id g = let (raw, g') = next_raw g in (record { raw = raw }, g')
