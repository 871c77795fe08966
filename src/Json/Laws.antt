-- ===== src/Json/Laws.antt =====
-- How `get`, `has`, `put` and `merge` interact.
use semantics_toolchain.Prelude.{
  sym, inl, inr, Bool-cases, contains, is_empty, List, String, ◌≡◌, refl, some, arith, ◌==◌, eq_iff,
  if◌then◌else◌,
}
use mathlib.Core.Bool.{true}
use semantics_toolchain.Json.Data.{has, keys, unknown_keys, Value, Fields, end, field, get, put}

pub get-put :
    (k j : String) (v : Value) (fs : Fields)
    → get j (put k v fs) ≡ (if k == j then some v else get j fs)
unfolding get put
get-put k j v end = refl
get-put k j v (field i w fs) = ground (arith, eq_iff k j, eq_iff i k, eq_iff i j, get-put k j v fs)

-- Where no key is unknown, a key that is there is allowed.
pub known_key :
    (allowed : List String) (k : String) (fs : Fields)
    → is_empty (unknown_keys allowed fs) ≡ true
    → has k fs ≡ true
    → contains allowed k ≡ true
unfolding unknown_keys keys has
known_key allowed k end e h = cc
known_key allowed k (field j v fs) e h = elim (Bool-cases (j == k)) [
  | inl same ↦ rw (sym ((eq_iff j k).0 same)) (ground arith)
  | inr other ↦ known_key allowed k fs (ground arith) (ground arith)
]
