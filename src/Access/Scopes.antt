-- ===== src/Access/Scopes.antt =====
-- Lemmas on `space_ids` and `get_node` of access.py, and on the scopes of a credential.
use semantics_toolchain.Prelude.{
  ℕ, true, false, Option, none, some, List, [], ◌∷◌, ◌≡◌, refl, arith, eqb_iff, is_empty,
  if◌then◌else◌, ◌&&◌,
}
use semantics_toolchain.Graph.{Membership, Graph, Node, find_node, live}
use semantics_toolchain.Access.Reading.{
  Access, is_member, in_scope, spaces_of, space_ids, refers, get_node,
}

-- Each space that `a` reaches `b` reaches as well.
abbrev pub Narrower : Graph → Access → Access → Type 0
Narrower g a b = (s : ℕ) → is_member s (space_ids g a) ≡ true → is_member s (space_ids g b) ≡ true

refers-Narrower :
    (xs ys : List ℕ) (i : ℕ) (rows : List (ℕ × ℕ))
    → ((s : ℕ) → is_member s xs ≡ true → is_member s ys ≡ true)
    → refers xs i rows ≡ true
    → refers ys i rows ≡ true
unfolding refers
refers-Narrower xs ys i [] h e = e
refers-Narrower xs ys i ((x, s) ∷ rows) h e = ground (arith, h s, refers-Narrower xs ys i rows h)

refers-nonempty :
    (xs : List ℕ) (i : ℕ) (rows : List (ℕ × ℕ)) → refers xs i rows ≡ true → is_empty xs ≡ false
unfolding refers is_member
refers-nonempty xs i [] e = cc
refers-nonempty [] i ((x, s) ∷ rows) e = refers-nonempty [] i rows (ground arith)
refers-nonempty (y ∷ ys) i ((x, s) ∷ rows) e = refl

-- A visible node is one that a reached space refers to and that is not deleted.
pub get_node-refers :
    (g : Graph) (a : Access) (i : ℕ)
    → get_node g a i
      ≡ (if refers (space_ids g a) i g.node_spaces then live (find_node i g.nodes) else none)
unfolding get_node
get_node-refers g a i = ground (arith, refers-nonempty (space_ids g a) i g.node_spaces)

-- Who reaches fewer spaces sees fewer nodes, and sees them the same.
pub get_node-Narrower :
    (g : Graph) (a b : Access) (i : ℕ) {n : Node}
    → Narrower g a b
    → get_node g a i ≡ some n
    → get_node g b i ≡ some n
get_node-Narrower g a b i {n} narrow e = ground (
  arith,
  get_node-refers g a i,
  get_node-refers g b i,
  refers-Narrower (space_ids g a) (space_ids g b) i g.node_spaces narrow,
)

abbrev pub unscoped : ℕ → Access
unscoped account = record { account_id = account; scopes = none }

spaces_of-scopes :
    (account : ℕ) (scopes : Option (List ℕ)) (ms : List Membership) (s : ℕ)
    → is_member s (spaces_of (record { account_id = account; scopes = scopes }) ms)
      ≡ (is_member s (spaces_of (unscoped account) ms) && in_scope scopes s)
unfolding spaces_of is_member in_scope
spaces_of-scopes account scopes [] s = ground arith
spaces_of-scopes account none (m ∷ ms) s = ground (arith, spaces_of-scopes account none ms s)
spaces_of-scopes account (some l) (m ∷ ms) s =
    ground (arith, spaces_of-scopes account (some l) ms s, eqb_iff m.space_id s)

-- The spaces that a credential reaches are the spaces of its account that are in its scopes, and so
-- each node that it reads its account reads.
pub get_node-scopes :
    (g : Graph) (account : ℕ) (scopes : Option (List ℕ)) (i : ℕ) {n : Node}
    → get_node g (record { account_id = account; scopes = scopes }) i ≡ some n
    → ((s : ℕ)
        → is_member s (space_ids g (record { account_id = account; scopes = scopes }))
          ≡ (is_member s (space_ids g (unscoped account)) && in_scope scopes s))
      × (get_node g (unscoped account) i ≡ some n)
unfolding space_ids
get_node-scopes g account scopes i e = (
  spaces_of-scopes account scopes g.memberships,
  get_node-Narrower g _ (unscoped account) i
      (λ s h. ground (arith, spaces_of-scopes account scopes g.memberships s)) e,
)
