-- ===== src/Policy/Strictest.antt =====
-- Lemmas on `evaluate` and `enforcement` of policy.py.
use semantics_toolchain.Prelude.{
  ℕ, ◌≤◌, String, true, false, List, [], ◌∷◌, ◌≡◌, refl, subst, inl, inr, ltb, arith, Bool-cases,
  All,
}
use semantics_toolchain.Graph.{Graph}
use semantics_toolchain.Policy.Factors.{
  Mode, Policy, Decision, Request, mode_order, strictest, base_mode, space_floor, trust_mode,
  audience, factors, evaluate, decided, has_audience, enforcement, Venue,
}

-- The first factor of a list with the mode and name of `d`, and none stricter.
pub data Names (p : Mode × String) : List (Mode × String) → Type 0 where
  here : (ps : List (Mode × String)) → Names p (p ∷ ps)
  there : (q : Mode × String) (ps : List (Mode × String)) → Names p ps → Names p (q ∷ ps)

abbrev pub Bounded : ℕ → List (Mode × String) → Type 0
Bounded k = All (λ q. mode_order q.0 ≤ k)

strictest-step-first :
    (p q : Mode × String) (qs : List (Mode × String))
    → ltb (mode_order p.0) (mode_order q.0) ≡ false
    → strictest p (q ∷ qs) ≡ strictest p qs
unfolding strictest
strictest-step-first p q qs e = rw e refl

strictest-step-next :
    (p q : Mode × String) (qs : List (Mode × String))
    → ltb (mode_order p.0) (mode_order q.0) ≡ true
    → strictest p (q ∷ qs) ≡ strictest q qs
unfolding strictest
strictest-step-next p q qs e = rw e refl

skip_second :
    {p q : Mode × String} {x : Mode × String} {ps : List (Mode × String)}
    → Names x (p ∷ ps)
    → Names x (p ∷ q ∷ ps)
skip_second (Names.here ps) = Names.here _
skip_second {p} {q} (Names.there r ps h) = Names.there p (q ∷ ps) (Names.there q ps h)

strictest-Names : (p : Mode × String) (qs : List (Mode × String)) → Names (strictest p qs) (p ∷ qs)
unfolding strictest
strictest-Names p [] = Names.here []
strictest-Names p (q ∷ qs) = elim (Bool-cases (ltb (mode_order p.0) (mode_order q.0))) [
  | inl e ↦ rw e (Names.there p (q ∷ qs) (strictest-Names q qs))
  | inr e ↦ rw e (skip_second (strictest-Names p qs))
]

strictest-Bounded :
    (k : ℕ) (p : Mode × String) (qs : List (Mode × String))
    → mode_order (strictest p qs).0 ≤ k
    → Bounded k (p ∷ qs)
unfolding strictest
strictest-Bounded k p [] h = (h, tt)
strictest-Bounded k p (q ∷ qs) h = elim (Bool-cases (ltb (mode_order p.0) (mode_order q.0))) [
  | inl e ↦
      let rest =
        strictest-Bounded k q qs
          (subst (λ x. mode_order x.0 ≤ k) (strictest-step-next p q qs e) h) in
      (ground (arith, rest.0), rest)
  | inr e ↦
      let rest =
        strictest-Bounded k p qs
          (subst (λ x. mode_order x.0 ≤ k) (strictest-step-first p q qs e) h) in
      (rest.0, (ground (arith, rest.0), rest.1))
]

-- The decision is one of the factors, by mode and by name, and no factor is stricter than it.
pub evaluate-factors :
    (t : Policy) (g : Graph) (r : Request)
    → Names ((evaluate t g r).mode, (evaluate t g r).factor) (factors t g r)
      × Bounded (mode_order (evaluate t g r).mode) (factors t g r)
unfolding evaluate decided
evaluate-factors t g r =
    let first : Mode × String = (base_mode t r.effective_sensitivity r.operation, "base") in
    let others : List (Mode × String) =
      (space_floor t r.target_space_id, "space_floor")
      ∷ (trust_mode t r.client_trust, "trust_floor")
      ∷ audience g r in
    (
      strictest-Names first others,
      strictest-Bounded (mode_order (strictest first others).0) first others (omega arith),
    )

applied : (d : Decision) (trust : String) → enforcement d trust ≡ Venue.apply → d.mode ≡ Mode.allow
unfolding enforcement
applied d trust e = ground arith

lenient : {m : Mode} → mode_order m ≤ 0 → m ≡ Mode.allow
unfolding mode_order
lenient h = ground arith

shared_confirms : (g : Graph) (r : Request) → has_audience g r ≡ true → Bounded 0 (audience g r) → ⊥
unfolding audience mode_order
shared_confirms g r loud h = absurd (omega (arith, (rw loud at h).0))

-- What is applied at once was allowed by every factor: by the sensitivity table, by the space, by
-- the trust of the client, and it is not a sensitive share into a space of several persons.
pub enforcement-apply :
    (t : Policy) (g : Graph) (r : Request)
    → enforcement (evaluate t g r) r.client_trust ≡ Venue.apply
    → (base_mode t r.effective_sensitivity r.operation ≡ Mode.allow)
      × (space_floor t r.target_space_id ≡ Mode.allow)
      × (trust_mode t r.client_trust ≡ Mode.allow)
      × (has_audience g r ≡ false)
unfolding mode_order
enforcement-apply t g r e =
    let allowed : (evaluate t g r).mode ≡ Mode.allow = applied (evaluate t g r) r.client_trust e in
    let bound : Bounded 0 (factors t g r) =
      subst (λ m. Bounded (mode_order m) (factors t g r)) allowed (evaluate-factors t g r).1 in
    (
      lenient bound.0,
      lenient bound.1.0,
      lenient bound.1.1.0,
      elim (Bool-cases (has_audience g r)) [
        | inr quiet ↦ quiet
        | inl loud ↦ absurd (shared_confirms g r loud bound.1.1.1)
      ],
    )
