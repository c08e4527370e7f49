-- ===== src/Prelude/Map/Inverse.antt =====
-- Taking a key out of an ordered map and putting it in.
use mathlib.Core.Path.{◌≡◌}
use mathlib.Core.Option.{none, some}
use native.Mathlib.Omega.{arith}
use onebeat.Prelude.Map.{Key, Map, find, erase, emplace, find-erase, find-emplace}
use onebeat.Prelude.Map.Ordered.{
  IsOrdered, erase-IsOrdered, emplace-IsOrdered, ordered_ext, keq_self,
}

module _ {K V : Type 0} ⦃o : Key K⦄ where
  erased_gone : (k : K) (m : Map K V) → find k (erase k m) ≡ none
  erased_gone k m = ground (arith, find-erase k k m, keq_self o k)

  pub emplace-erase :
      (k : K) (v : V) (m : Map K V) → IsOrdered m → find k m ≡ some v → emplace k v (erase k m) ≡ m
  emplace-erase k v m a h =
      ordered_ext (emplace k v (erase k m)) m
        (emplace-IsOrdered k v (erase k m) (erase-IsOrdered k m a)) a
        (λ i. ground (
          arith,
          find-emplace k i v (erase k m) (erased_gone k m),
          find-erase k i m,
          o.keq_iff k i,
        ))

  pub erase-emplace :
      (k : K) (v : V) (m : Map K V) → IsOrdered m → find k m ≡ none → erase k (emplace k v m) ≡ m
  erase-emplace k v m a h =
      ordered_ext (erase k (emplace k v m)) m
        (erase-IsOrdered k (emplace k v m) (emplace-IsOrdered k v m a)) a
        (λ i. ground (arith, find-erase k i (emplace k v m), find-emplace k i v m h, o.keq_iff k i))
