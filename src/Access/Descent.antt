-- ===== src/Access/Descent.antt =====
-- Lemmas on `containment_subtree` of access.py: its rounds, its members, and descent by active
-- containment edges.
use semantics_toolchain.Prelude.{
  ℕ, zero, suc, ◌+◌, ◌≤◌, true, false, none, some, List, [], ◌∷◌, ◌≡◌, refl, sym, subst, inl, inr,
  arith, eqb, eqb_iff, length, if◌then◌else◌, Bool-cases, Option-cases, some_inj, eq_iff,
}
use semantics_toolchain.Graph.{Edge, Graph, contained_in}
use semantics_toolchain.Access.Reading.{is_member}
use semantics_toolchain.Access.Subtree.{extends, next_source, closure, containment_subtree}

-- One active containment edge of the table, from a node to its container.
pub data Contains (up : ℕ) (down : ℕ) : List Edge → Type 0 where
  here :
      (e : Edge) (es : List Edge)
      → e.type ≡ contained_in
      → e.active ≡ true
      → e.dst_node ≡ up
      → e.src_node ≡ down
      → Contains up down (e ∷ es)
  there : (e : Edge) (es : List Edge) → Contains up down es → Contains up down (e ∷ es)

-- What lies below the anchor.
pub data Below (es : List Edge) (anchor : ℕ) : ℕ → Type 0 where
  itself : Below es anchor anchor
  inside : (up down : ℕ) → Below es anchor up → Contains up down es → Below es anchor down

-- How many edges have a source outside the set.
outside : List ℕ → List Edge → ℕ
outside sub [] = 0
outside sub (e ∷ es) = (if is_member e.src_node sub then 0 else 1) + outside sub es

is_member-cons : (x y : ℕ) (sub : List ℕ) → is_member y sub ≡ true → is_member y (x ∷ sub) ≡ true
unfolding is_member
is_member-cons x y sub h = ground arith

outside-cons : (x : ℕ) (sub : List ℕ) (es : List Edge) → outside (x ∷ sub) es ≤ outside sub es
unfolding outside
outside-cons x sub [] = omega arith
outside-cons x sub (e ∷ es) = ground (arith, outside-cons x sub es, is_member-cons x e.src_node sub)

is_member-head : (x : ℕ) (sub : List ℕ) → is_member x (x ∷ sub) ≡ true
unfolding is_member
is_member-head x sub = ground (arith, eqb_iff x x)

outside-next_source :
    (sub : List ℕ) (es : List Edge) {x : ℕ}
    → next_source sub es ≡ some x
    → suc (outside (x ∷ sub) es) ≤ outside sub es
unfolding outside next_source extends
outside-next_source sub [] h = absurd (ground arith)
outside-next_source sub (e ∷ es) {x} h = elim (Bool-cases (extends sub e)) [
  | inl new ↦
      let same : e.src_node ≡ x = some_inj (rw new at h) in
      ground (arith, outside-cons x sub es, is_member-head x sub)
  | inr old ↦
      ground
        (arith, outside-next_source sub es {x = x} (rw old at h), is_member-cons x e.src_node sub)
]

closure-stop :
    (fuel : ℕ) (es : List Edge) (sub : List ℕ)
    → next_source sub es ≡ none
    → closure (suc fuel) es sub ≡ sub
unfolding closure
closure-stop fuel es sub e = rw (e, closure) refl

closure-grow :
    (fuel x : ℕ) (es : List Edge) (sub : List ℕ)
    → next_source sub es ≡ some x
    → closure (suc fuel) es sub ≡ closure fuel es (x ∷ sub)
unfolding closure
closure-grow fuel x es sub e = rw (e, closure) refl

closure-zero : (es : List Edge) (sub : List ℕ) → closure zero es sub ≡ sub
unfolding closure
closure-zero es sub = refl

-- With as much fuel as there are edges with a source outside, nothing is left to add.
closure-closed :
    (fuel : ℕ) (es : List Edge) (sub : List ℕ)
    → outside sub es ≤ fuel
    → next_source (closure fuel es sub) es ≡ none
closure-closed zero es sub h = elim (Option-cases (next_source sub es)) [
  | inl e ↦ rw (closure-zero es sub) e
  | inr (x, e) ↦ absurd (omega (arith, outside-next_source sub es e))
]
closure-closed (suc fuel) es sub h = elim (Option-cases (next_source sub es)) [
  | inl e ↦ rw (closure-stop fuel es sub e) e
  | inr (x, e) ↦
      rw (closure-grow fuel x es sub e)
        (closure-closed fuel es (x ∷ sub) (omega (arith, outside-next_source sub es e)))
]

closure-keeps :
    (fuel : ℕ) (es : List Edge) (sub : List ℕ) (y : ℕ)
    → is_member y sub ≡ true
    → is_member y (closure fuel es sub) ≡ true
closure-keeps zero es sub y h = rw (closure-zero es sub) h
closure-keeps (suc fuel) es sub y h = elim (Option-cases (next_source sub es)) [
  | inl e ↦ rw (closure-stop fuel es sub e) h
  | inr (x, e) ↦
      rw (closure-grow fuel x es sub e)
        (closure-keeps fuel es (x ∷ sub) y (is_member-cons x y sub h))
]

extends-parts :
    (sub : List ℕ) (e : Edge)
    → extends sub e ≡ true
    → (e.type ≡ contained_in) × (e.active ≡ true) × (is_member e.dst_node sub ≡ true)
unfolding extends
extends-parts sub e h = ((eq_iff e.type contained_in).0 (ground arith), ground arith, ground arith)

-- What is added lies directly below a member.
next_source-Contains :
    (sub : List ℕ) (es : List Edge) {x : ℕ}
    → next_source sub es ≡ some x
    → (up : ℕ) × (is_member up sub ≡ true) × Contains up x es
unfolding next_source
next_source-Contains sub [] h = absurd (ground arith)
next_source-Contains sub (e ∷ es) {x} h = elim (Bool-cases (extends sub e)) [
  | inl new ↦
      let (type, active, member) = extends-parts sub e new in
      (e.dst_node, member, Contains.here e es type active refl (some_inj (rw new at h)))
  | inr old ↦
      let (up, member, below) = next_source-Contains sub es {x = x} (rw old at h) in
      (up, member, Contains.there e es below)
]

AllBelow : List Edge → ℕ → List ℕ → Type 0
AllBelow es anchor sub = (y : ℕ) → is_member y sub ≡ true → Below es anchor y

cons-AllBelow :
    (es : List Edge) (anchor x : ℕ) (sub : List ℕ)
    → Below es anchor x
    → AllBelow es anchor sub
    → AllBelow es anchor (x ∷ sub)
unfolding is_member AllBelow
cons-AllBelow es anchor x sub b h y m = elim (Bool-cases (eqb x y)) [
  | inl e ↦ subst (Below es anchor) ((eqb_iff x y).0 e) b
  | inr e ↦ h y (rw e at m)
]

closure-AllBelow :
    (fuel : ℕ) (es : List Edge) (anchor : ℕ) (sub : List ℕ)
    → AllBelow es anchor sub
    → AllBelow es anchor (closure fuel es sub)
unfolding AllBelow
closure-AllBelow zero es anchor sub h = rw (closure-zero es sub) h
closure-AllBelow (suc fuel) es anchor sub h = elim (Option-cases (next_source sub es)) [
  | inl e ↦ rw (closure-stop fuel es sub e) h
  | inr (x, e) ↦
      let (up, member, below) = next_source-Contains sub es e in
      rw (closure-grow fuel x es sub e) (
        closure-AllBelow fuel es anchor (x ∷ sub)
          (cons-AllBelow es anchor x sub (Below.inside up x (h up member) below) h))
]

closed-head :
    (sub : List ℕ) (e : Edge) (es : List Edge)
    → next_source sub (e ∷ es) ≡ none
    → (extends sub e ≡ false) × (next_source sub es ≡ none)
unfolding next_source
closed-head sub e es h = elim (Bool-cases (extends sub e)) [
  | inl new ↦ absurd (ground arith)
  | inr old ↦ (old, rw old at h)
]

closed-source :
    (sub : List ℕ) (e : Edge)
    → extends sub e ≡ false
    → e.type ≡ contained_in
    → e.active ≡ true
    → is_member e.dst_node sub ≡ true
    → is_member e.src_node sub ≡ true
unfolding extends
closed-source sub e h type active m = ground (arith, (eq_iff e.type contained_in).1 type)

Contains-member :
    (sub : List ℕ) (up down : ℕ) {es : List Edge}
    → next_source sub es ≡ none
    → Contains up down es
    → is_member up sub ≡ true
    → is_member down sub ≡ true
Contains-member sub up down closed (Contains.here e es type active to from) m =
    let (old, rest) = closed-head sub e es closed in
    subst (λ z. is_member z sub ≡ true) from
      (closed-source sub e old type active (subst (λ z. is_member z sub ≡ true) (sym to) m))
Contains-member sub up down closed (Contains.there e es below) m =
    let (old, rest) = closed-head sub e es closed in Contains-member sub up down rest below m

Below-member :
    (es : List Edge) (anchor y : ℕ) (sub : List ℕ)
    → next_source sub es ≡ none
    → is_member anchor sub ≡ true
    → Below es anchor y
    → is_member y sub ≡ true
Below-member es anchor y sub closed m Below.itself = m
Below-member es anchor y sub closed m (Below.inside up down b c) =
    Contains-member sub up down closed c (Below-member es anchor up sub closed m b)

no_member : (z : ℕ) → is_member z [] ≡ true → ⊥
unfolding is_member
no_member z m = absurd (ground arith)

outside-length : (sub : List ℕ) (es : List Edge) → outside sub es ≤ length es
unfolding outside
outside-length sub [] = omega arith
outside-length sub (e ∷ es) = ground (arith, outside-length sub es)

-- The subtree of a node holds the node and exactly those from which active containment edges lead to
-- it, cycles in the table included.
pub containment_subtree-Below :
    (g : Graph) (anchor y : ℕ)
    → (is_member y (containment_subtree g anchor) ≡ true → Below g.edges anchor y)
      × (Below g.edges anchor y → is_member y (containment_subtree g anchor) ≡ true)
unfolding containment_subtree AllBelow
containment_subtree-Below g anchor y =
    let bound = outside-length (anchor ∷ []) g.edges in
    let closed = closure-closed (length g.edges) g.edges (anchor ∷ []) bound in
    let root =
      closure-keeps (length g.edges) g.edges (anchor ∷ []) anchor (is_member-head anchor []) in
    (
      closure-AllBelow (length g.edges) g.edges anchor (anchor ∷ [])
          (cons-AllBelow g.edges anchor anchor [] Below.itself (λ z m. absurd (no_member z m))) y,
      Below-member g.edges anchor y _ closed root,
    )
