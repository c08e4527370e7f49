-- ===== src/Ids/Order.antt =====
-- The order of ids as 128-bit values, for which they are keys of a map.
use onebeat.Prelude.{◌≡◌, ◌↔◌, Bool, true, false, arith}
use onebeat.Prelude.Map.{Key}
use onebeat.Ids.{EntityKind, TypedId, raw_eq, raw_lt}

abbrev pub id_eq : {K : EntityKind} → TypedId K → TypedId K → Bool
id_eq a b = raw_eq a.raw b.raw

abbrev pub id_lt : {K : EntityKind} → TypedId K → TypedId K → Bool
id_lt a b = raw_lt a.raw b.raw

pub id_eq_iff : {K : EntityKind} (a b : TypedId K) → (id_eq a b ≡ true) ↔ (a ≡ b)
unfolding raw_eq
id_eq_iff a b = ground arith

pub id_lt_irrefl : {K : EntityKind} (a : TypedId K) → id_lt a a ≡ false
unfolding raw_lt
id_lt_irrefl a = ground arith

pub id_lt_trans :
    {K : EntityKind} (a b c : TypedId K) → id_lt a b ≡ true → id_lt b c ≡ true → id_lt a c ≡ true
unfolding raw_lt
id_lt_trans a b c h k = ground arith

pub id_lt_total :
    {K : EntityKind} (a b : TypedId K) → id_lt a b ≡ false → id_eq a b ≡ false → id_lt b a ≡ true
unfolding raw_lt raw_eq
id_lt_total a b h k = ground arith

instance abbrev pub id_key : {K : EntityKind} → Key (TypedId K)
id_key = record {
  keq = id_eq;
  klt = id_lt;
  keq_iff = id_eq_iff;
  klt_irrefl = id_lt_irrefl;
  klt_trans = id_lt_trans;
  klt_total = id_lt_total;
}
