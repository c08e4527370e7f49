-- ===== src/Ids/Text.antt =====
-- The text of an id in a project file, and reading it back.
use onebeat.Prelude.{
  ℕ, ◌≡◌, ◌≢◌, refl, true, none, some, List, [], ◌∷◌, arith, length, if◌then◌else◌,
}
use onebeat.Ids.{
  EntityKind, TypedId, entity_prefix, encode_ulid, decode_ulid, list_eq, id_str, id_parse,
}
use onebeat.Ids.Ulid.{IsRawId, length-encode_ulid, decode_ulid-encode_ulid}

list_eq_refl : (xs : List ℕ) → list_eq xs xs ≡ true
unfolding list_eq
list_eq_refl [] = refl
list_eq_refl (x ∷ xs) = ground (arith, list_eq_refl xs)

same_prefix : (J K : EntityKind) → list_eq (entity_prefix J) (entity_prefix K) ≡ true → J ≡ K
unfolding entity_prefix list_eq
same_prefix J K h = ground arith

-- three letters
Letters : List ℕ → Type 0
Letters p = (a : ℕ) × (b : ℕ) × (c : ℕ) × (p ≡ a ∷ b ∷ c ∷ [])

entity_prefix-Letters : (K : EntityKind) → Letters (entity_prefix K)
unfolding entity_prefix Letters
entity_prefix-Letters EntityKind.instrument = (_, _, _, refl)
entity_prefix-Letters _ = (_, _, _, refl)

-- Of a text made of a prefix of three letters and a ULID, `parse` compares the prefix and reads the rest.
id_parse_of_Letters :
    (J : EntityKind) (a b c : ℕ) (ulid : List ℕ)
    → Letters (entity_prefix J)
    → length ulid ≡ 26
    → id_parse J (a ∷ b ∷ c ∷ b'_' ∷ ulid) ≡ (
        if list_eq (a ∷ b ∷ c ∷ []) (entity_prefix J)
        then elim (decode_ulid ulid) [ none ↦ none | some raw ↦ some (record { raw = raw }) ]
        else none)
unfolding id_parse Letters
id_parse_of_Letters J a b c ulid (x, y, z, e) h = rw (e, id_parse) (ground arith)

module _ (K : EntityKind) (id : TypedId K) (w : IsRawId id.raw)
    (letters : Letters (entity_prefix K)) where
  -- what any kind makes of the text of `id`
  id_parse_of_str :
      (J : EntityKind)
      → id_parse J (id_str id) ≡ (
          if list_eq (entity_prefix K) (entity_prefix J)
          then some (record { raw = id.raw })
          else none)
  unfolding id_str Letters
  id_parse_of_str J =
      let (a, b, c, e) = letters in
      rw e (
        rw (
          id_parse_of_Letters J a b c (encode_ulid id.raw) (entity_prefix-Letters J)
              (length-encode_ulid id.raw),
          decode_ulid-encode_ulid id.raw w,
        ))

-- The text of an id of 128 bits is read back as that id by the kind that wrote it, and refused by every other kind.
pub id_parse-id_str :
    (J K : EntityKind) (id : TypedId K)
    → IsRawId id.raw
    → (id_parse K (id_str id) ≡ some id) × (J ≢ K → id_parse J (id_str id) ≡ none)
id_parse-id_str J K id w = (
  rw (id_parse_of_str K id w (entity_prefix-Letters K) K, list_eq_refl (entity_prefix K)),
  λ ne. rw (id_parse_of_str K id w (entity_prefix-Letters K) J) (ground (arith, same_prefix K J)),
)
