-- ===== src/Ids/Generator.antt =====
-- The ids that IdGenerator (engine/src/model/ids.cpp) mints, one after the other.
use onebeat.Prelude.{ℕ, ◌+◌, ◌*◌, ◌%◌, ◌^◌, ◌≤◌, ◌<◌, ◌≡◌, ◌⊎◌, true, arith}
use onebeat.Ids.{RawId, IdGenerator, raw_lt, now_milliseconds, redraw, count_up, next_raw}

-- The id that the generator minted last.
abbrev pub last_raw : IdGenerator → RawId
last_raw g = record {
  high = (g.last_ms % 2 ^ 48) * 2 ^ 16 + g.last_random_high;
  low = g.last_random_low;
}

-- The fields stay in their widths.
pub record IsInWidth (g : IdGenerator) : Type 0 where
  pub ms_width : g.last_ms < 2 ^ 48
  pub high_width : g.last_random_high < 2 ^ 16
  pub low_width : g.last_random_low < 2 ^ 64

-- What the clock will say next.
abbrev pub reading : IdGenerator → ℕ
reading g = (now_milliseconds g).0

-- From a generator whose fields are in their widths and that has minted an id: while the clock fits 48
-- bits and does not step back and the 80 random bits of a millisecond are not used up, each new
-- id comes after the one minted before it, and it is the last minted one of the new state.
pub next_raw-increases :
    (g : IdGenerator)
    → IsInWidth g
    → g.has_last ≡ true
    → g.last_ms ≤ reading g
    → reading g < 2 ^ 48
    → (g.last_random_high + 1 < 2 ^ 16) ⊎ (g.last_random_low + 1 < 2 ^ 64)
    → let (raw, g') = next_raw g in
      (raw_lt (last_raw g) raw ≡ true) × (raw ≡ last_raw g') × (g'.has_last ≡ true)
unfolding next_raw raw_lt count_up redraw now_milliseconds
next_raw-increases g w l m b r = ground arith
