-- ===== src/Json/Data.antt =====
-- JSON values, and how Python reads a dict and a truth value.
use semantics_toolchain.Prelude.{
  ℕ, suc, ℤ, pos, String, Bool, true, false, not, Option, none, some, List, [], ◌∷◌, ◌==◌, eqb_ℤ,
  if◌then◌else◌, contains, filter,
}

mutual
  pub data Value : Type 0 where
    null : Value
    bool : Bool → Value
    int : ℤ → Value
    float : ℤ → ℕ → Value
    str : String → Value
    arr : Items → Value
    obj : Fields → Value

  pub data Fields : Type 0 where
    end : Fields
    field : String → Value → Fields → Fields

  pub data Items : Type 0 where
    nil : Items
    cons : Value → Items → Items

-- `d.get(key)`, with `none` for a missing key.
unfoldable pub get : String → Fields → Option Value
get k end = none
get k (field j v fs) = if j == k then some v else get k fs

-- `key in d`
unfoldable pub has : String → Fields → Bool
has k end = false
has k (field j v fs) = if j == k then true else has k fs

-- `list(d)`
unfoldable pub keys : Fields → List String
keys end = []
keys (field k v fs) = k ∷ keys fs

-- `set(d) - allowed`, as a list.
unfoldable pub unknown_keys : List String → Fields → List String
unfolding keys
unknown_keys allowed fs = filter (λ k. not (contains allowed k)) (keys fs)

-- `len(d)`
unfoldable pub count_fields : Fields → ℕ
count_fields end = 0
count_fields (field k v fs) = suc (count_fields fs)

unfoldable pub to_list : Items → List Value
to_list nil = []
to_list (cons v vs) = v ∷ to_list vs

-- `d[key] = v`: a key that is there keeps its place.
unfoldable pub put : String → Value → Fields → Fields
put k v end = field k v end
put k v (field j w fs) = if j == k then field j v fs else field j w (put k v fs)

-- `{**d, **patch}`
unfoldable pub merge : Fields → Fields → Fields
unfolding put
merge fs end = fs
merge fs (field k v patch) = merge (put k v fs) patch

-- `bool(v)`
unfoldable pub truthy : Value → Bool
truthy null = false
truthy (bool b) = b
truthy (int z) = not (eqb_ℤ z (pos 0))
truthy (float m k) = not (eqb_ℤ m (pos 0))
truthy (str s) = not (s == "")
truthy (arr nil) = false
truthy (arr (cons v vs)) = true
truthy (obj end) = false
truthy (obj (field k v fs)) = true

-- `isinstance(v, str)` and the like
unfoldable pub is_str : Value → Bool
is_str (str s) = true
is_str _ = false

unfoldable pub is_bool : Value → Bool
is_bool (bool b) = true
is_bool _ = false

unfoldable pub is_obj : Value → Bool
is_obj (obj fs) = true
is_obj _ = false

-- `isinstance(v, str) and v`
unfoldable pub is_nonempty_str : Value → Bool
is_nonempty_str (str s) = not (s == "")
is_nonempty_str _ = false

-- A value that is present must pass the test: `"k" in d and not test(d["k"])` refuses.
unfoldable pub absent_or : (Value → Bool) → Option Value → Bool
absent_or test none = true
absent_or test (some v) = test v

-- A missing key or a null: `d.get(key) is None`.
unfoldable pub is_none : Option Value → Bool
is_none none = true
is_none (some null) = true
is_none (some _) = false

-- `d.get(key) == text`
unfoldable pub is_text : String → Option Value → Bool
is_text s (some (str t)) = t == s
is_text s _ = false
