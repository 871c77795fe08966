-- ===== src/Access/Permissions.antt =====
-- Lemmas on `effective_permission` of access.py.
use semantics_toolchain.Prelude.{
  ℕ, ◌≤◌, Bool, true, false, Option, none, some, List, [], ◌∷◌, ◌&&◌, ◌≡◌, refl, sym, ap, ◌∙◌,
  subst, inl, inr, arith, Bool-cases, Option-cases, eqb, eqb_iff, ltb, and_true, some_inj, In,
  if◌then◌else◌,
}
use semantics_toolchain.Graph.{Membership, Permission, Graph, Node, has_row}
use semantics_toolchain.Access.Reading.{
  Access, is_member, in_scope, spaces_of, space_ids, refers, get_node, is_node_visible, rank,
  grants, permissions, highest, maximum, effective_permission,
}

-- A membership of the account, in a space of its scope if it has one, into which the node is put.
pub record Allows (g : Graph) (a : Access) (id : ℕ) (m : Membership) : Type 0 where
  pub account : m.account_id ≡ a.account_id
  pub scoped : (spaces : List ℕ) → a.scopes ≡ some spaces → is_member m.space_id spaces ≡ true
  pub shared : has_row id m.space_id g.node_spaces ≡ true

-- The order read, write, admin.
abbrev pub AtMost : Permission → Permission → Type 0
AtMost Permission.read q = Unit
AtMost Permission.write Permission.read = ⊥
AtMost Permission.write q = Unit
AtMost Permission.admin Permission.admin = Unit
AtMost Permission.admin q = ⊥

AtMost-rank : (p q : Permission) → rank p ≤ rank q → AtMost p q
unfolding rank
AtMost-rank Permission.read q h = tt
AtMost-rank Permission.write Permission.read h = absurd (omega (arith, h))
AtMost-rank Permission.write Permission.write h = tt
AtMost-rank Permission.write Permission.admin h = tt
AtMost-rank Permission.admin Permission.read h = absurd (omega (arith, h))
AtMost-rank Permission.admin Permission.write h = absurd (omega (arith, h))
AtMost-rank Permission.admin Permission.admin h = tt

refers-has_row : (s id : ℕ) (rows : List (ℕ × ℕ)) → refers (s ∷ []) id rows ≡ has_row id s rows
unfolding refers has_row is_member
refers-has_row s id [] = refl
refers-has_row s id ((x, y) ∷ rows) =
    ground (arith, refers-has_row s id rows, eqb_iff s y, eqb_iff y s)

-- The spaces of an account are those of its memberships in its scope.
space-in_scope :
    (a : Access) (s : ℕ) (ms : List Membership)
    → is_member s (spaces_of a ms) ≡ true
    → in_scope a.scopes s ≡ true
unfolding spaces_of is_member
space-in_scope a s [] h = absurd (ground arith)
space-in_scope a s (m ∷ ms) h =
    elim (Bool-cases (eqb m.account_id a.account_id && in_scope a.scopes m.space_id)) [
      | inr other ↦ space-in_scope a s ms (ground (arith, other, h))
      | inl own ↦ elim (Bool-cases (eqb m.space_id s)) [
        | inr apart ↦ space-in_scope a s ms (ground (arith, own, apart, h))
        | inl same ↦
            subst (λ x. in_scope a.scopes x ≡ true) ((eqb_iff m.space_id s).0 same)
              (and_true _ _ own).1
      ]
    ]

space-In :
    (a : Access) (m : Membership) (ms : List Membership)
    → In m ms
    → (eqb m.account_id a.account_id && in_scope a.scopes m.space_id) ≡ true
    → is_member m.space_id (spaces_of a ms) ≡ true
unfolding spaces_of is_member
space-In a m [] here own = absurd here
space-In a m (n ∷ ms) (inl same) own =
    let first : (eqb n.account_id a.account_id && in_scope a.scopes n.space_id) ≡ true =
      subst (λ x. (eqb x.account_id a.account_id && in_scope a.scopes x.space_id) ≡ true) same
        own in
    let found : eqb n.space_id m.space_id ≡ true =
      (eqb_iff n.space_id m.space_id).1 (ap (λ (x : Membership). x.space_id) (sym same)) in
    ground (arith, first, found)
space-In a m (n ∷ ms) (inr later) own = ground (arith, space-In a m ms later own)

scope-in :
    (scopes : Option (List ℕ)) (s : ℕ)
    → in_scope scopes s ≡ true
    → (spaces : List ℕ) → scopes ≡ some spaces
    → is_member s spaces ≡ true
unfolding in_scope
scope-in scopes s h spaces e = subst (λ o. in_scope o s ≡ true) e h

in-scope :
    (scopes : Option (List ℕ)) (s : ℕ)
    → ((spaces : List ℕ) → scopes ≡ some spaces → is_member s spaces ≡ true)
    → in_scope scopes s ≡ true
unfolding in_scope
in-scope none s h = refl
in-scope (some spaces) s h = h spaces refl

module _ (g : Graph) (a : Access) (id : ℕ) where
  grants-Allows : (m : Membership) → grants g a id m ≡ true → Allows g a id m
  unfolding grants space_ids
  grants-Allows m h =
      let (own, rest) = and_true _ _ h in
      let (space, shared) = and_true _ _ rest in
      record {
        account = (eqb_iff m.account_id a.account_id).0 own;
        scoped = scope-in a.scopes m.space_id (space-in_scope a m.space_id g.memberships space);
        shared = sym (refers-has_row m.space_id id g.node_spaces) ∙ shared;
      }

  Allows-grants : (m : Membership) → In m g.memberships → Allows g a id m → grants g a id m ≡ true
  unfolding grants space_ids
  Allows-grants m here w =
      let own = (eqb_iff m.account_id a.account_id).1 w.account in
      let scoped = in-scope a.scopes m.space_id w.scoped in
      let space = space-In a m g.memberships here (ground (arith, own, scoped)) in
      let shared = refers-has_row m.space_id id g.node_spaces ∙ w.shared in
      ground (arith, own, space, shared)

  permission-from :
      (p : Permission) (ms : List Membership)
      → In p (permissions g a id ms)
      → (m : Membership) × In m ms × (grants g a id m ≡ true) × (m.permission ≡ p)
  unfolding permissions
  permission-from p [] here = absurd here
  permission-from p (m ∷ ms) here = elim (Bool-cases (grants g a id m)) [
    | inr refused ↦
        let (n, there, allowed, same) = permission-from p ms (rw refused at here) in
        (n, inr there, allowed, same)
    | inl granted ↦ elim (rw granted at here) [
      | inl same ↦ (m, inl refl, granted, sym same)
      | inr later ↦
          let (n, there, allowed, same) = permission-from p ms later in
          (n, inr there, allowed, same)
    ]
  ]

  permission-to :
      (m : Membership) (ms : List Membership)
      → In m ms
      → grants g a id m ≡ true
      → In m.permission (permissions g a id ms)
  unfolding permissions
  permission-to m [] here h = absurd here
  permission-to m (n ∷ ms) (inl same) h =
      rw (subst (λ x. grants g a id x ≡ true) same h)
        (inl (ap (λ (x : Membership). x.permission) same))
  permission-to m (n ∷ ms) (inr later) h = elim (Bool-cases (grants g a id n)) [
    | inl also ↦ rw also (inr (permission-to m ms later h))
    | inr not_also ↦ rw not_also (permission-to m ms later h)
  ]

highest-next :
    (p q : Permission) (qs : List Permission) (b : Bool)
    → ltb (rank p) (rank q) ≡ b
    → highest p (q ∷ qs) ≡ highest (if b then q else p) qs
unfolding highest
highest-next p q qs b h = rw h refl

highest-In : (p : Permission) (qs : List Permission) → In (highest p qs) (p ∷ qs)
unfolding highest
highest-In p [] = inl refl
highest-In p (q ∷ qs) = elim (Bool-cases (ltb (rank p) (rank q))) [
  | inl above ↦
      subst (λ x. In x (p ∷ q ∷ qs)) (sym (highest-next p q qs true above)) (inr (highest-In q qs))
  | inr below ↦
      subst (λ x. In x (p ∷ q ∷ qs)) (sym (highest-next p q qs false below))
        (elim (highest-In p qs) [ inl same ↦ inl same | inr later ↦ inr (inr later) ])
]

highest-above :
    (p : Permission) (qs : List Permission)
    → (rank p ≤ rank (highest p qs)) × ((q : Permission) → In q qs → rank q ≤ rank (highest p qs))
unfolding highest
highest-above p [] = (omega arith, λ q here. absurd here)
highest-above p (r ∷ qs) = elim (Bool-cases (ltb (rank p) (rank r))) [
  | inl above ↦
      let (top, rest) = highest-above r qs in
      rw above (
        ground (arith, above, top),
        λ q here. elim here [
          | inl same ↦ subst (λ x. rank x ≤ rank (highest r qs)) (sym same) top
          | inr later ↦ rest q later
        ],
      )
  | inr below ↦
      let (top, rest) = highest-above p qs in
      rw below (
        top,
        λ q here. elim here [
          | inl same ↦
              subst (λ x. rank x ≤ rank (highest p qs)) (sym same) (ground (arith, below, top))
          | inr later ↦ rest q later
        ],
      )
]

maximum-In :
    (qs : List Permission) (p : Permission)
    → maximum qs ≡ some p
    → In p qs × ((q : Permission) → In q qs → rank q ≤ rank p)
unfolding maximum
maximum-In [] p e = absurd (ground arith)
maximum-In (q ∷ qs) p e =
    let (top, rest) = highest-above q qs in
    subst (λ x. In x (q ∷ qs) × ((r : Permission) → In r (q ∷ qs) → rank r ≤ rank x)) (some_inj e)
      (
        highest-In q qs,
        λ r here. elim here [
          | inl same ↦ subst (λ x. rank x ≤ rank (highest q qs)) (sym same) top
          | inr later ↦ rest r later
        ],
      )

effective_permission-visible :
    (g : Graph) (a : Access) (id : ℕ) (p : Permission)
    → effective_permission g a id ≡ some p
    → ((n : Node) × (get_node g a id ≡ some n))
      × (maximum (permissions g a id g.memberships) ≡ some p)
unfolding effective_permission is_node_visible
effective_permission-visible g a id p e = elim (Option-cases (get_node g a id)) [
  | inl hidden ↦ absurd (ground (arith, hidden))
  | inr (n, seen) ↦ ((n, seen), ground (arith, seen))
]

-- The effective permission on a node, which the account sees, is that of a membership of the account
-- in a space that its scope allows and that the node is put into; no membership of this kind has a
-- higher one.
pub effective_permission-grants :
    (g : Graph) (a : Access) (id : ℕ) (p : Permission)
    → effective_permission g a id ≡ some p
    → ((n : Node) × (get_node g a id ≡ some n))
      × ((m : Membership) × In m g.memberships × Allows g a id m × (m.permission ≡ p))
      × ((m : Membership) → In m g.memberships → Allows g a id m → AtMost m.permission p)
effective_permission-grants g a id p e =
    let (seen, top) = effective_permission-visible g a id p e in
    let (hit, above) = maximum-In _ p top in
    let (m, here, granted, same) = permission-from g a id p g.memberships hit in
    (
      seen,
      (m, here, grants-Allows g a id m granted, same),
      λ m here w. AtMost-rank m.permission p (
          above m.permission
            (permission-to g a id m g.memberships here (Allows-grants g a id m here w))),
    )
