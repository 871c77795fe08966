-- ===== src/ReviewHarness/Catalogue/Meta.antt =====
-- `_load_meta`, `_require_complete_meta`, `read_round_meta` and `round_completed`. The parser of JSON
-- is a parameter: `none` is its JSONDecodeError.
use semantics_toolchain.Prelude.{
  ℕ, String, Bool, false, not, ◌&&◌, ◌||◌, Option, none, some, List, [], ◌∷◌, ◌++◌, all, contains,
  is_prefix, codes, is_white, Result, ok, err, ◌>>=◌, ◌>>◌, require, if◌then◌else◌,
}
use semantics_toolchain.Json.{
  Value, Fields, bool, str, arr, obj, get, keys, to_list, is_str, is_bool, absent_or,
}
use semantics_toolchain.ReviewHarness.Catalogue.Files.{
  Directory, HarnessError, not_object, no_meta, corrupt_meta, wrong_completed, incomplete_meta,
  no_round_meta, corrupt_round_meta, meta, pass_meta, round_file, exists, read_text, is_blank,
}

-- `isinstance(v, list) and all(isinstance(p, str) for p in v)`
unfoldable pub is_list_of_texts : Option Value → Bool
unfolding is_str to_list
is_list_of_texts (some (arr items)) = all is_str (to_list items)
is_list_of_texts _ = false

-- The texts of a list of texts.
unfoldable pub texts : List Value → List String
texts [] = []
texts (str s ∷ vs) = s ∷ texts vs
texts (_ ∷ vs) = texts vs

-- `meta["artifact_paths"]`, checked before to be a list of texts.
unfoldable pub artifacts_of : Fields → List String
unfolding texts to_list get
artifacts_of m = elim (get "artifact_paths" m) [ some (arr items) ↦ texts (to_list items) | _ ↦ [] ]

-- `isinstance(v, str) and v.strip()`
unfoldable pub is_filled : Option Value → Bool
unfolding is_white
is_filled (some (str s)) = not (is_blank s)
is_filled _ = false

-- `d.get(key, False)`, a bool.
unfoldable pub flag : String → Fields → Bool
unfolding get
flag key m = elim (get key m) [ some (bool b) ↦ b | _ ↦ false ]

-- The condition of `_load_meta`; an answer that is not there is as good as an empty one.
unfoldable pub is_run_meta : Fields → Bool
unfolding is_list_of_texts is_filled flag get is_bool is_str absent_or
is_run_meta m =
    is_list_of_texts (get "artifact_paths" m)
    && elim (get "critic_model" m) [ some v ↦ is_str v | none ↦ false ]
    && absent_or is_bool (get "entry_gate_confirmed" m)
    && absent_or is_str (get "entry_gate_answer" m)
    && absent_or is_str (get "entry_gate_prompt" m)
    && (not (flag "entry_gate_confirmed" m)
        || (is_filled (get "entry_gate_answer" m) && is_filled (get "entry_gate_prompt" m)))

-- `isinstance(head, str) and head.strip() and not head.startswith("<")`
unfoldable pub is_head : Option Value → Bool
unfolding is_filled is_prefix
is_head (some (str s)) = is_filled (some (str s)) && not (is_prefix (codes "<") (codes s))
is_head _ = false

-- `set(xs) == set(ys)`
unfoldable pub same_set : List String → List String → Bool
same_set xs ys = all (contains ys) xs && all (contains xs) ys

unfoldable pub values : Fields → List Value
values Fields.end = []
values (Fields.field k v fs) = v ∷ values fs

-- `isinstance(snapshot, dict) and set(snapshot) == expected and all(...)`
unfoldable pub is_snapshot : List String → Option Value → Bool
unfolding same_set keys values is_str
is_snapshot expected (some (obj fs)) = same_set (keys fs) expected && all is_str (values fs)
is_snapshot expected _ = false

module _ (loads : String → Option Value) where
  -- `_load_meta`
  unfoldable pub load_meta : Directory → Result HarnessError Fields
  unfolding exists read_text is_run_meta
  load_meta d = do
    require (exists meta d) no_meta
    text ← read_text meta d
    elim (loads text) [
      | none ↦ err corrupt_meta
      | some (obj m) ↦ if is_run_meta m then ok m else err corrupt_meta
      | some v ↦ err not_object
    ]

  -- `_require_complete_meta`
  unfoldable pub require_complete_meta : Directory → Fields → Result HarnessError Unit
  unfolding load_meta artifacts_of is_filled is_head is_snapshot get is_bool absent_or
  require_complete_meta d m = do
    require (absent_or is_bool (get "completed" m)) wrong_completed
    run ← load_meta d
    require
        (is_filled (get "operator_profile_version" m)
          && is_head (get "git_head" m)
          && is_snapshot (artifacts_of run ++ "__task_description__" ∷ "__launch_note__" ∷ [])
              (get "artifact_snapshot" m))
        incomplete_meta

  -- `read_round_meta`
  unfoldable pub read_round_meta : Directory → ℕ → Result HarnessError Fields
  unfolding exists read_text require_complete_meta round_file
  read_round_meta d n = do
    require (exists (round_file pass_meta n) d) no_round_meta
    text ← read_text (round_file pass_meta n) d
    elim (loads text) [
      | some (obj m) ↦ require_complete_meta d m >> ok m
      | _ ↦ err corrupt_round_meta
    ]

  -- `round_completed`
  unfoldable pub round_completed : Directory → ℕ → Result HarnessError Bool
  unfolding read_round_meta flag
  round_completed d n = read_round_meta d n >>= λ m. ok (flag "completed" m)
