-- ===== src/Policy/Examples.antt =====
-- Decisions under a small table, and the theorems about them.
use semantics_toolchain.Prelude.{ℕ, String, false, some, none, [], ◌∷◌, ◌≡◌, refl}
use semantics_toolchain.Graph.{Graph, Permission}
use semantics_toolchain.Policy.Factors.{
  Mode, Policy, Request, Venue, mode_order, strictest, mode_of, floor_of, find_space, or_allow,
  base_mode, floor_in, space_floor, trust_mode, accounts_of, distinct, is_multi_person,
  has_audience, audience, factors, decided, evaluate, enforcement,
}
use semantics_toolchain.Policy.Strictest.{Names, Bounded, evaluate-factors, enforcement-apply}

program : Unit {0}
unfolding mode_order strictest mode_of floor_of find_space or_allow base_mode floor_in space_floor
    trust_mode accounts_of distinct is_multi_person has_audience audience decided evaluate
    enforcement
program = tt

abbrev table : Policy
table = record {
  sensitivity_mode = record { sensitivity = "high"; operation = "delete"; mode = Mode.deny } ∷ [];
  template_floor = ("family", Mode.confirm) ∷ [];
  trust_floor = ("untrusted", Mode.confirm) ∷ [];
  spaces =
      record { id = 3; template = "family"; write_floor = none }
      ∷ record { id = 4; template = "personal"; write_floor = some Mode.allow }
      ∷ [];
}

abbrev household : Graph
household = record {
  nodes = [];
  versions = [];
  edges = [];
  node_spaces = [];
  edge_spaces = [];
  memberships =
      record { account_id = 7; space_id = 4; permission = Permission.admin }
      ∷ record { account_id = 7; space_id = 3; permission = Permission.admin }
      ∷ record { account_id = 8; space_id = 4; permission = Permission.read }
      ∷ [];
  node_types = [];
  edge_types = [];
  next_id = 0;
}

abbrev request : String → String → ℕ → String → Request
request operation sensitivity space trust = record {
  operation = operation;
  effective_sensitivity = sensitivity;
  target_space_id = some space;
  client_trust = trust;
}

decisions :
    (evaluate table household (request "delete" "high" 3 "untrusted")
      ≡ record { mode = Mode.deny; factor = "base" })
    × (evaluate table household (request "create" "high" 3 "untrusted")
        ≡ record { mode = Mode.confirm; factor = "space_floor" })
    × (evaluate table household (request "share" "high" 4 "trusted")
        ≡ record { mode = Mode.confirm; factor = "share_audience" })
    × (evaluate table household (request "share" "low" 4 "trusted")
        ≡ record { mode = Mode.allow; factor = "base" })
unfolding program
decisions = (refl, refl, refl, refl)

evaluate-factors_example :
    Names
      (
        (evaluate table household (request "share" "high" 4 "trusted")).mode,
        (evaluate table household (request "share" "high" 4 "trusted")).factor,
      )
      (factors table household (request "share" "high" 4 "trusted"))
    × Bounded
        (mode_order (evaluate table household (request "share" "high" 4 "trusted")).mode)
        (factors table household (request "share" "high" 4 "trusted"))
evaluate-factors_example = evaluate-factors table household (request "share" "high" 4 "trusted")

applied_at_once :
    enforcement (evaluate table household (request "share" "low" 4 "trusted")) "trusted"
    ≡ Venue.apply
unfolding program
applied_at_once = refl

enforcement-apply_example :
    (base_mode table "low" "share" ≡ Mode.allow)
    × (space_floor table (some 4) ≡ Mode.allow)
    × (trust_mode table "trusted" ≡ Mode.allow)
    × (has_audience household (request "share" "low" 4 "trusted") ≡ false)
enforcement-apply_example =
    enforcement-apply table household (request "share" "low" 4 "trusted") applied_at_once
