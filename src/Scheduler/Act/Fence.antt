-- ===== src/Scheduler/Act/Fence.antt =====
-- `parse_writes_scope`, and the fence phase of `execute_actions`.
use semantics_toolchain.Prelude.{
  ℕ, String, Bool, true, false, Option, none, some, List, [], ◌∷◌, eqb, if◌then◌else◌, contains,
  is_empty, all, Result, ok, err, ◌>>=◌, ◌>>◌, require,
}
use semantics_toolchain.Json.{
  Value, Fields, null, str, arr, obj, end, get, unknown_keys, is_nonempty_str, to_list, truthy,
  is_text,
}
use semantics_toolchain.Json.Convert.{uuid_of}
use semantics_toolchain.Graph.{Graph, Node, GraphError, get_node}
use semantics_toolchain.Scheduler.Plan.{Action, Kind}

-- The FenceErrors, the ValueError of `uuid.UUID`, and the errors of the repository that the execution
-- passes on.
pub data ActError : Type 0 where
  writes_keys writes_not_a_list writes_entry : ActError
  type_outside target_not_found target_outside target_type : ActError
  malformed_id : ActError
  repository : GraphError → ActError

text_of : Value → String
text_of (str s) = s
text_of v = ""

texts_of : List Value → List String
unfolding text_of
texts_of [] = []
texts_of (v ∷ vs) = text_of v ∷ texts_of vs

-- A list of non-empty texts.
unfoldable pub writes_list : Value → Result ActError (List String)
unfolding texts_of to_list is_nonempty_str
writes_list (arr vs) =
    if all is_nonempty_str (to_list vs) then ok (texts_of (to_list vs)) else err writes_entry
writes_list v = err writes_not_a_list

unfoldable pub writes_types : Option Value → Result ActError (List String)
unfolding writes_list
writes_types none = ok []
writes_types (some null) = ok []
writes_types (some v) = writes_list v

unfoldable pub parse_writes_scope : Option Value → Result ActError (List String)
unfolding writes_types writes_list unknown_keys
parse_writes_scope none = ok []
parse_writes_scope (some null) = ok []
parse_writes_scope (some (obj fs)) =
    if is_empty (unknown_keys ("types" ∷ []) fs)
    then writes_types (get "types" fs)
    else err writes_keys
parse_writes_scope (some v) = writes_list v

-- The payload of an action of an accepted plan, which is an object.
unfoldable pub payload_of : Action → Fields
payload_of a = elim a.payload [ obj fs ↦ fs | _ ↦ end ]

unfoldable pub is_update : Fields → Bool
unfolding is_text
is_update p = is_text "update" (get "op" p)

-- `uuid.UUID(str(raw)) if raw else None`, with nothing also where the UUID is malformed; an accepted
-- plan has a text there that is not empty.
unfoldable pub target_id : Fields → Option ℕ
target_id p = elim (get "node_id" p) [ none ↦ none | some v ↦ if truthy v then uuid_of v else none ]

-- A `node_id` that reads as true and is no UUID.
unfoldable pub has_malformed_id : Fields → Bool
has_malformed_id p = elim (get "node_id" p) [
  | none ↦ false
  | some v ↦ if truthy v then elim (uuid_of v) [ none ↦ true | some i ↦ false ] else false
]

unfoldable pub target_node : Graph → Fields → Option Node
target_node g p = elim (target_id p) [ none ↦ none | some id ↦ get_node g id ]

unfoldable pub in_space : ℕ → Node → Bool
in_space space n = elim n.origin_space [ none ↦ false | some s ↦ eqb s space ]

-- The checks of `_fence_update_target` on the node that it read.
unfoldable pub fence_target : Graph → List String → ℕ → Fields → Result ActError Node
fence_target g allowed space p = elim (target_node g p) [
  | none ↦ err target_not_found
  | some n ↦
      if in_space space n
      then (if contains allowed n.type then ok n else err target_type)
      else err target_outside
]

-- `_fence_update_target`
unfoldable pub fence_update_target : Graph → List String → ℕ → Fields → Result ActError Node
fence_update_target g allowed space p =
    if has_malformed_id p then err malformed_id else fence_target g allowed space p

unfoldable pub fence_create : List String → Fields → Result ActError Unit
fence_create allowed p = elim (get "type" p) [
  | some (str type) ↦ require (contains allowed type) type_outside
  | _ ↦ err type_outside
]

unfoldable pub fence_action : Graph → List String → ℕ → Action → Result ActError Unit
fence_action g allowed space a = elim a.kind [
  | Kind.write ↦
      if is_update (payload_of a)
      then fence_update_target g allowed space (payload_of a) >>= (λ n. ok tt)
      else fence_create allowed (payload_of a)
  | _ ↦ ok tt
]

-- The first loop of `execute_actions`: it reads the graph and writes nothing.
unfoldable pub fence_all : Graph → List String → ℕ → List Action → Result ActError Unit
fence_all g allowed space [] = ok tt
fence_all g allowed space (a ∷ actions) =
    fence_action g allowed space a >> fence_all g allowed space actions
