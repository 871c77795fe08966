-- ===== src/Scheduler/Gather/Contract.antt =====
-- What an accepted declaration of gather steps guarantees to the handlers.
use semantics_toolchain.Prelude.{
  String, Bool, true, Option, none, some, List, [], ◌∷◌, ◌==◌, ◌≡◌, refl, subst, arith, inl, inr,
  contains, all, is_empty, ok, ◌>>=◌, ◌>>◌, require, require-eq-ok, >>=-eq-ok, All, Bool-cases,
  Option-cases, eq_iff, some_inj,
}
use semantics_toolchain.Json.{
  Value, Fields, Items, null, bool, int, float, str, arr, obj, nil, cons, end, field, get, has,
  unknown_keys, to_list,
}
use semantics_toolchain.Json.Laws.{known_key}
use semantics_toolchain.Scheduler.Gather.Steps.{
  GatherError, Validator, lookup, registry, validators, step_args, passes, check_args, check_values,
  check_contract, check_tool, check_step, check_steps, validate_gather_steps,
}

module _ (is_date : Value → Bool) where
  -- A step that its tool's handler can run: the tool is in the registry, its required arguments are
  -- there, and each argument is one that it allows, with a value that its validator passes.
  pub record IsRunnable (step : Value) : Type 0 where
    pub fields : Fields
    pub tool : String
    pub args : Fields
    pub allowed : List String
    pub required : List String
    pub checks : List (String × Validator)
    pub form : step ≡ obj fields
    pub named : get "tool" fields ≡ some (str tool)
    pub given : step_args fields ≡ ok args
    pub registered : lookup tool registry ≡ some (allowed, required)
    pub validated : lookup tool validators ≡ some checks
    pub complete : all (λ k. has k args) required ≡ true
    pub known : (k : String) → has k args ≡ true → contains allowed k ≡ true
    pub valid :
        (k : String) (v : Value)
        → get k args ≡ some v
        → (c : Validator) × (lookup k checks ≡ some c) × (passes is_date c v ≡ true)

  check_args-valid :
      (checks : List (String × Validator)) (args : Fields)
      → check_args is_date checks args ≡ ok tt
      → (k : String) (v : Value) → get k args ≡ some v
      → (c : Validator) × (lookup k checks ≡ some c) × (passes is_date c v ≡ true)
  unfolding check_args get
  check_args-valid checks end h k v e = absurd (ground arith)
  check_args-valid checks (field j w args) h k v e = elim (Option-cases (lookup j checks)) [
    | inl gone ↦ absurd (ground arith)
    | inr (c, found) ↦
        let checked : (require (passes is_date c w) GatherError.bad_argument
              >> check_args is_date checks args)
            ≡ ok tt =
          rw (found, check_args) at h in
        let (u, first, rest) =
          >>=-eq-ok (require (passes is_date c w) GatherError.bad_argument) _ checked in
        elim (Bool-cases (j == k)) [
          | inl same ↦
              let at_k : j ≡ k = (eq_iff j k).0 same in
              let value : w ≡ v = some_inj (rw same at e) in
              (
                c,
                subst (λ x. lookup x checks ≡ some c) at_k found,
                subst (λ x. passes is_date c x ≡ true) value (require-eq-ok _ _ first),
              )
          | inr other ↦ check_args-valid checks args rest k v (rw other at e)
        ]
  ]

  check_values-checks :
      (tool : String) (args : Fields)
      → check_values is_date tool args ≡ ok tt
      → (checks : List (String × Validator)) × (lookup tool validators ≡ some checks)
        × (check_args is_date checks args ≡ ok tt)
  unfolding check_values
  check_values-checks tool args h = elim (Option-cases (lookup tool validators)) [
    | inl gone ↦ absurd (ground arith)
    | inr (checks, found) ↦ (checks, found, rw (found, check_values) at h)
  ]

  check_contract-IsRunnable :
      (fs args : Fields) (tool : String) (allowed required : List String)
      → get "tool" fs ≡ some (str tool)
      → step_args fs ≡ ok args
      → lookup tool registry ≡ some (allowed, required)
      → check_contract is_date tool allowed required fs args ≡ ok tt
      → IsRunnable (obj fs)
  unfolding check_contract
  check_contract-IsRunnable fs args tool allowed required named given registered h =
      let known_test = require (is_empty (unknown_keys allowed args)) GatherError.unknown_args in
      let required_test = require (all (λ k. has k args) required) GatherError.missing_args in
      let value_test = check_values is_date tool args in
      let key_test =
        require (is_empty (unknown_keys ("tool" ∷ "args" ∷ []) fs)) GatherError.step_keys in
      let (u, before_keys, step_keys_pass) =
        >>=-eq-ok (known_test >> required_test >> value_test) (λ x. key_test) h in
      let (v, before_values, values_pass) =
        >>=-eq-ok (known_test >> required_test) (λ x. value_test) before_keys in
      let (w, known_pass, required_pass) =
        >>=-eq-ok known_test (λ x. required_test) before_values in
      let (checks, validated, checked) = check_values-checks tool args values_pass in
      record {
        fields = fs;
        tool = tool;
        args = args;
        allowed = allowed;
        required = required;
        checks = checks;
        form = refl;
        named = named;
        given = given;
        registered = registered;
        validated = validated;
        complete =
            require-eq-ok (all (λ k. has k args) required) GatherError.missing_args required_pass;
        known = λ k there.
            known_key allowed k args
              (require-eq-ok (is_empty (unknown_keys allowed args)) GatherError.unknown_args
                known_pass)
              there;
        valid = check_args-valid checks args checked;
      }

  check_tool-IsRunnable :
      (fs : Fields) (tool : String)
      → get "tool" fs ≡ some (str tool)
      → check_tool is_date tool fs ≡ ok tt
      → IsRunnable (obj fs)
  unfolding check_tool
  check_tool-IsRunnable fs tool named h = elim (Option-cases (lookup tool registry)) [
    | inl gone ↦ absurd (ground arith)
    | inr ((allowed, required), registered) ↦
        let run : (step_args fs >>= λ args. check_contract is_date tool allowed required fs args)
            ≡ ok tt =
          rw (registered, check_tool) at h in
        let (args, given, checked) = >>=-eq-ok (step_args fs) _ run in
        check_contract-IsRunnable fs args tool allowed required named given registered checked
  ]

  check_step-IsRunnable : (v : Value) → check_step is_date v ≡ ok tt → IsRunnable v
  unfolding check_step
  check_step-IsRunnable (obj fs) h = by_name (get "tool" fs) refl
    where
      by_name : (o : Option Value) → get "tool" fs ≡ o → IsRunnable (obj fs)
      by_name none e = absurd (ground arith)
      by_name (some (str tool)) e = check_tool-IsRunnable fs tool e (rw (e, check_step) at h)
      by_name (some null) e = absurd (ground arith)
      by_name (some (bool b)) e = absurd (ground arith)
      by_name (some (int z)) e = absurd (ground arith)
      by_name (some (float m k)) e = absurd (ground arith)
      by_name (some (arr vs)) e = absurd (ground arith)
      by_name (some (obj gs)) e = absurd (ground arith)
  check_step-IsRunnable null h = absurd (ground arith)
  check_step-IsRunnable (bool b) h = absurd (ground arith)
  check_step-IsRunnable (int z) h = absurd (ground arith)
  check_step-IsRunnable (float m k) h = absurd (ground arith)
  check_step-IsRunnable (str s) h = absurd (ground arith)
  check_step-IsRunnable (arr vs) h = absurd (ground arith)

  check_steps-AllRunnable :
      (vs : Items) → check_steps is_date vs ≡ ok tt → All IsRunnable (to_list vs)
  unfolding check_steps to_list
  check_steps-AllRunnable nil h = tt
  check_steps-AllRunnable (cons v vs) h =
      let (u, first, rest) = >>=-eq-ok (check_step is_date v) _ h in
      (check_step-IsRunnable v first, check_steps-AllRunnable vs rest)

  -- In an accepted list of gather steps every step names a registered tool, has all arguments that
  -- the tool requires and none that it does not allow, and each value passes its validator, so the
  -- handler finds a validator for each argument.
  pub validate_gather_steps-AllRunnable :
      (vs : Items) → validate_gather_steps is_date (arr vs) ≡ ok tt → All IsRunnable (to_list vs)
  unfolding validate_gather_steps
  validate_gather_steps-AllRunnable vs h = check_steps-AllRunnable vs h
