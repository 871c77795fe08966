-- ===== src/Scheduler/Plan/Order.antt =====
-- The order and the keys of `canonical_actions`.
use text.Mathlib.TextLemmas.{append_cancel_left}
use semantics_toolchain.Prelude.{
  ℕ, String, Option, none, some, List, [], ◌∷◌, ◌++◌, map, get_elem?, get_elem?-snoc, ◌≡◌, ◌≢◌,
  refl, sym, ap, ◌∙◌, inl, inr,
}
use mathlib.Core.List.{map-append, append_assoc, append-nil}
use semantics_toolchain.Json.{Value, Fields, get}
use semantics_toolchain.Scheduler.Plan.Decimal.{decimal-injective}
use semantics_toolchain.Scheduler.Plan.Actions.{
  Kind, Action, action_key, append_action, given, append_given, append_writes, planned_writes,
  canonical_actions,
}

-- What an action does, without its key.
abbrev pub Effect : Type 0
Effect = Kind × Value

abbrev pub effect : Action → Effect
effect a = (a.kind, a.payload)

abbrev pub part : Kind → Option Value → List Effect
part kind none = []
part kind (some v) = (kind, v) ∷ []

module _ (occurrence : String) where
  effects-append_action :
      (kind : Kind) (v : Value) (actions : List Action)
      → map effect (append_action occurrence kind v actions) ≡ map effect actions ++ (kind, v) ∷ []
  unfolding append_action
  effects-append_action kind v actions = map-append effect actions _

  effects-append_given :
      (kind : Kind) (o : Option Value) (actions : List Action)
      → map effect (append_given occurrence kind o actions) ≡ map effect actions ++ part kind o
  unfolding append_given
  effects-append_given kind none actions = sym (append-nil _)
  effects-append_given kind (some v) actions = effects-append_action kind v actions

  effects-append_writes :
      (vs : List Value) (actions : List Action)
      → map effect (append_writes occurrence vs actions)
        ≡ map effect actions ++ map (λ v. (Kind.write, v)) vs
  unfolding append_writes
  effects-append_writes [] actions = sym (append-nil _)
  effects-append_writes (v ∷ vs) actions =
      effects-append_writes vs (append_action occurrence Kind.write v actions)
      ∙ ap (λ l. l ++ map (λ w. (Kind.write, w)) vs) (effects-append_action Kind.write v actions)
      ∙ append_assoc (map effect actions) _ _

-- The actions of a plan are its `deliver`, if there is one, then its writes in their order, then
-- its `elicit`, if there is one, and nothing else.
effects-canonical_actions :
    (plan : Fields) (occurrence : String)
    → map effect (canonical_actions plan occurrence)
      ≡ (part Kind.deliver (given (get "deliver" plan))
          ++ map (λ v. (Kind.write, v)) (planned_writes (get "writes" plan)))
        ++ part Kind.elicit (given (get "elicit" plan))
unfolding canonical_actions
effects-canonical_actions plan occurrence = simp (effects-append_given, effects-append_writes)

-- The action at position `i` has the key of `i`.
abbrev IsKeyed : String → List Action → Type 0
IsKeyed occurrence actions =
    (i : ℕ) (a : Action) → get_elem? actions i ≡ some a → a.key ≡ action_key occurrence i

module _ (occurrence : String) where
  append_action-IsKeyed :
      (kind : Kind) (v : Value) (actions : List Action)
      → IsKeyed occurrence actions
      → IsKeyed occurrence (append_action occurrence kind v actions)
  unfolding append_action
  append_action-IsKeyed kind v actions h i a e = elim (get_elem?-snoc actions _ i e) [
    | inl old ↦ h i a old
    | inr (last, new) ↦ rw (new, last) refl
  ]

  append_given-IsKeyed :
      (kind : Kind) (o : Option Value) (actions : List Action)
      → IsKeyed occurrence actions
      → IsKeyed occurrence (append_given occurrence kind o actions)
  unfolding append_given
  append_given-IsKeyed kind none actions h = h
  append_given-IsKeyed kind (some v) actions h = append_action-IsKeyed kind v actions h

  append_writes-IsKeyed :
      (vs : List Value) (actions : List Action)
      → IsKeyed occurrence actions
      → IsKeyed occurrence (append_writes occurrence vs actions)
  unfolding append_writes
  append_writes-IsKeyed [] actions h = h
  append_writes-IsKeyed (v ∷ vs) actions h =
      append_writes-IsKeyed vs _ (append_action-IsKeyed Kind.write v actions h)

  canonical_actions-IsKeyed :
      (plan : Fields) → IsKeyed occurrence (canonical_actions plan occurrence)
  unfolding canonical_actions
  canonical_actions-IsKeyed plan = append_given-IsKeyed Kind.elicit (given (get "elicit" plan)) _ (
      append_writes-IsKeyed (planned_writes (get "writes" plan)) _
        (append_given-IsKeyed Kind.deliver (given (get "deliver" plan)) [] (λ i a e. cc)))

  action_key-injective : (i j : ℕ) → action_key occurrence i ≡ action_key occurrence j → i ≡ j
  unfolding action_key
  action_key-injective i j e =
      decimal-injective i j (append_cancel_left ":" _ _ (append_cancel_left occurrence _ _ e))

-- Within one occurrence two actions at different positions have different keys.
keys-distinct :
    (plan : Fields) (occurrence : String) (i j : ℕ) {a b : Action}
    → get_elem? (canonical_actions plan occurrence) i ≡ some a
    → get_elem? (canonical_actions plan occurrence) j ≡ some b
    → i ≢ j
    → a.key ≢ b.key
keys-distinct plan occurrence i j {a} {b} ea eb ne same = ne (
    action_key-injective occurrence i j (
      sym (canonical_actions-IsKeyed occurrence plan i a ea)
      ∙ same
      ∙ canonical_actions-IsKeyed occurrence plan j b eb))
