-- ===== src/Tests/IdRuns.antt =====
-- Ids, on concrete values.
use onebeat.Prelude.{◌≡◌, ◌≢◌, inr, refl, true, none, some, arith}
use onebeat.Ids.{
  EntityKind, TypedId, raw_lt, encode_ulid, decode_ulid, id_str, id_parse, next_raw, ClipId,
}
use onebeat.Ids.Ulid.{IsRawId}
use onebeat.Ids.Text.{id_parse-id_str}
use onebeat.Ids.Generator.{last_raw, next_raw-increases}
use onebeat.Tests.Data.{raw, key_of, generator}

narrow : IsRawId (raw 77)
narrow = record { high_word = omega arith; low_word = omega arith }

abbrev some_clip : ClipId
some_clip = key_of 77

id_parse-id_str_example :
    (id_parse EntityKind.clip (id_str some_clip) ≡ some some_clip)
    × (EntityKind.pattern ≢ EntityKind.clip → id_parse EntityKind.pattern (id_str some_clip) ≡ none)
id_parse-id_str_example = id_parse-id_str EntityKind.pattern EntityKind.clip some_clip narrow

next_raw-increases_example :
    let (raw, g') = next_raw generator in
    (raw_lt (last_raw generator) raw ≡ true) × (raw ≡ last_raw g') × (g'.has_last ≡ true)
unfolding onebeat.Ids.now_milliseconds
next_raw-increases_example =
    next_raw-increases generator
      (record { ms_width = omega arith; high_width = omega arith; low_width = omega arith }) refl
      (omega arith) (omega arith) (inr (omega arith))
