-- ===== src/Policy/Factors.antt =====
-- The factors of a decision, their maximum, and the enforcement.
use semantics_toolchain.Prelude.{
  length, any, ℕ, String, Bool, false, Option, none, some, List, [], ◌∷◌, ltb, eqb, if◌then◌else◌,
  ◌==◌, ◌&&◌, contains,
}
use semantics_toolchain.Graph.{Graph, Membership, Node, effective_sensitivity, high}

-- MODES of models/base.py, to which check constraints restrict the columns.
pub data Mode : Type 0 where
  allow confirm deny : Mode

pub record Space : Type 0 where
  pub id : ℕ
  pub template : String
  pub write_floor : Option Mode

pub record SensitivityMode : Type 0 where
  pub sensitivity : String
  pub operation : String
  pub mode : Mode

-- The tables of models/policy.py, and the spaces.
pub record Policy : Type 0 where
  pub sensitivity_mode : List SensitivityMode
  pub template_floor : List (String × Mode)
  pub trust_floor : List (String × Mode)
  pub spaces : List Space

pub record Decision : Type 0 where
  pub mode : Mode
  pub factor : String

-- MODE_ORDER
unfoldable pub mode_order : Mode → ℕ
mode_order Mode.allow = 0
mode_order Mode.confirm = 1
mode_order Mode.deny = 2

-- Python's `max` keeps the first of several greatest.
unfoldable pub strictest : Mode × String → List (Mode × String) → Mode × String
strictest p [] = p
strictest p (q ∷ qs) = strictest (if ltb (mode_order p.0) (mode_order q.0) then q else p) qs

unfoldable pub mode_of : String → String → List SensitivityMode → Option Mode
mode_of s op [] = none
mode_of s op (r ∷ rs) =
    if (r.sensitivity == s) && (r.operation == op) then some r.mode else mode_of s op rs

unfoldable pub floor_of : String → List (String × Mode) → Option Mode
floor_of k [] = none
floor_of k ((j, m) ∷ rs) = if j == k then some m else floor_of k rs

unfoldable pub find_space : ℕ → List Space → Option Space
find_space i [] = none
find_space i (s ∷ ss) = if eqb s.id i then some s else find_space i ss

unfoldable pub or_allow : Option Mode → Mode
or_allow none = Mode.allow
or_allow (some m) = m

unfoldable pub base_mode : Policy → String → String → Mode
base_mode t sensitivity operation = or_allow (mode_of sensitivity operation t.sensitivity_mode)

unfoldable pub floor_in : Policy → Space → Mode
floor_in t s = elim s.write_floor [
  | some m ↦ m
  | none ↦ or_allow (floor_of s.template t.template_floor)
]

unfoldable pub space_floor : Policy → Option ℕ → Mode
space_floor t none = Mode.allow
space_floor t (some id) = elim (find_space id t.spaces) [
  | none ↦ Mode.allow
  | some s ↦ floor_in t s
]

unfoldable pub trust_mode : Policy → String → Mode
trust_mode t client_trust = or_allow (floor_of client_trust t.trust_floor)

unfoldable pub accounts_of : ℕ → List Membership → List ℕ
accounts_of space [] = []
accounts_of space (m ∷ ms) =
    let rest = accounts_of space ms in if eqb m.space_id space then m.account_id ∷ rest else rest

unfoldable pub distinct : List ℕ → List ℕ
distinct [] = []
distinct (x ∷ xs) = let rest = distinct xs in if any (λ y. eqb y x) rest then rest else x ∷ rest

-- `func.count(func.distinct(Membership.account_id)) > 1`
unfoldable pub is_multi_person : Graph → ℕ → Bool
is_multi_person g space = ltb 1 (length (distinct (accounts_of space g.memberships)))

-- The arguments of `evaluate`.
pub record Request : Type 0 where
  pub operation : String
  pub effective_sensitivity : String
  pub target_space_id : Option ℕ
  pub client_trust : String

unfoldable pub has_audience : Graph → Request → Bool
has_audience g r =
    contains ("share" ∷ []) r.operation
    && (contains high r.effective_sensitivity
        && elim r.target_space_id [ none ↦ false | some id ↦ is_multi_person g id ])

unfoldable pub audience : Graph → Request → List (Mode × String)
audience g r = if has_audience g r then (Mode.confirm, "share_audience") ∷ [] else []

abbrev pub factors : Policy → Graph → Request → List (Mode × String)
factors t g r =
    (base_mode t r.effective_sensitivity r.operation, "base")
    ∷ (space_floor t r.target_space_id, "space_floor")
    ∷ (trust_mode t r.client_trust, "trust_floor")
    ∷ audience g r

unfoldable pub decided : Mode × String → Decision
decided p = record { mode = p.0; factor = p.1 }

unfoldable pub evaluate : Policy → Graph → Request → Decision
evaluate t g r = decided (
    strictest (base_mode t r.effective_sensitivity r.operation, "base")
      ((space_floor t r.target_space_id, "space_floor")
        ∷ (trust_mode t r.client_trust, "trust_floor")
        ∷ audience g r))

unfoldable pub effective_node_sensitivity : Graph → Node → String
effective_node_sensitivity g n = effective_sensitivity g n

-- The venues that `enforcement` names.
pub data Venue : Type 0 where
  apply deny_venue client_confirm server_proposal : Venue

unfoldable pub enforcement : Decision → String → Venue
enforcement d client_trust = elim d.mode [
  | Mode.allow ↦ Venue.apply
  | Mode.deny ↦ Venue.deny_venue
  | Mode.confirm ↦ if client_trust == "trusted" then Venue.client_confirm else Venue.server_proposal
]
