-- ===== src/Proposals/Staged.antt =====
-- `Proposal` of models/policy.py, the errors of proposals.py, and how a proposal's fields are read.
use semantics_toolchain.Prelude.{ℕ, String, Option, none, some, if◌then◌else◌, Result, ok, err}
use semantics_toolchain.Json.{Value, Fields, null, str, obj, end, get, truthy}
use semantics_toolchain.Json.Convert.{uuid_of}
use semantics_toolchain.Graph.{GraphError}

-- `target_ref` and `payload` are `{}` where the column is NULL. The proposer is the account of the
-- client's credential, if it is still there.
pub record Proposal : Type 0 where
  pub id : ℕ
  pub op : String
  pub target_ref : Fields
  pub payload : Fields
  pub status : String
  pub proposer : Option ℕ
  pub created_node_id : Option ℕ

-- OrphanedChild, MissingVersionToken, and the other exceptions of an application. A value of a
-- wrong type raises AttributeError or, in the database, an error of its own.
pub data ProposalError : Type 0 where
  outside_batch circular no_parent approved_apart parent_gone : ProposalError
  missing_version_token key_error value_error wrong_type unknown_op : ProposalError
  repository : GraphError → ProposalError

-- `uuid.UUID(str(raw))`
unfoldable pub any_uuid : Value → Result ProposalError ℕ
unfolding uuid_of
any_uuid v = elim (uuid_of v) [ none ↦ err value_error | some i ↦ ok i ]

-- `value or {}`, where the value is an object or reads as false.
unfoldable pub object_or_empty : Option Value → Result ProposalError Fields
unfolding truthy
object_or_empty none = ok end
object_or_empty (some (obj fs)) = ok fs
object_or_empty (some v) = if truthy v then err wrong_type else ok end

-- `d.get(key)`, if it reads as true.
unfoldable pub true_value : String → Fields → Option Value
unfolding truthy get
true_value key fs = elim (get key fs) [ none ↦ none | some v ↦ if truthy v then some v else none ]

-- `uuid.UUID(ref[key])`
unfoldable pub ref_uuid : String → Fields → Result ProposalError ℕ
unfolding any_uuid get
ref_uuid key ref = elim (get key ref) [
  | none ↦ err key_error
  | some (str s) ↦ any_uuid (str s)
  | some v ↦ err wrong_type
]

-- `ref[key]`, a text.
unfoldable pub ref_text : String → Fields → Result ProposalError String
unfolding get
ref_text key ref = elim (get key ref) [
  | none ↦ err key_error
  | some (str s) ↦ ok s
  | some v ↦ err wrong_type
]

-- `payload.get(key)`, a text or None.
unfoldable pub payload_text : String → Fields → Result ProposalError (Option String)
unfolding get
payload_text key payload = elim (get key payload) [
  | none ↦ ok none
  | some null ↦ ok none
  | some (str s) ↦ ok (some s)
  | some v ↦ err wrong_type
]

-- `payload.get(key)`, an object or None.
unfoldable pub payload_object : String → Fields → Result ProposalError (Option Fields)
unfolding get
payload_object key payload = elim (get key payload) [
  | none ↦ ok none
  | some null ↦ ok none
  | some (obj fs) ↦ ok (some fs)
  | some v ↦ err wrong_type
]

-- `payload.get("properties")` where the repository takes `properties or {}`: what reads as false is
-- no properties. A value that reads as true and is no object would be stored as it is; the graph's
-- rows hold objects, so here it is refused.
unfoldable pub payload_properties : Fields → Result ProposalError (Option Fields)
unfolding true_value
payload_properties payload = elim (true_value "properties" payload) [
  | none ↦ ok none
  | some (obj fs) ↦ ok (some fs)
  | some v ↦ err wrong_type
]

-- `payload.get("status") or "current"`; what is no text is an error of the database.
unfoldable pub status_or_current : Fields → Result ProposalError String
unfolding true_value
status_or_current payload = elim (true_value "status" payload) [
  | none ↦ ok "current"
  | some (str s) ↦ ok s
  | some v ↦ err wrong_type
]
