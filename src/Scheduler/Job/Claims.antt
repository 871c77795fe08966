-- ===== src/Scheduler/Job/Claims.antt =====
-- Lemmas on `claim_job` and `finish_job` of the scheduler, and when a job is due after them.
use semantics_toolchain.Json.Laws.{get-put}
use semantics_toolchain.Prelude.{
  true, eq_iff, if◌then◌else◌, ◌==◌, Bool, false, ◌==◌, Option, String, ℕ, none, some, List, [],
  ◌∷◌, eqb, Bool-cases, inl, inr, sym, ◌≡◌, refl, ap, arith, Result, ok, err, ok_inj, some_inj,
}
use semantics_toolchain.Graph.{Graph, Node, GraphError, find_node, get_node, same_id}
use semantics_toolchain.Json.{Value, Fields, null, bool, end, field, get, has, put, merge}
use semantics_toolchain.Graph.Versions.{get_node-found}
use semantics_toolchain.Graph.Cas.{get_node-update_node}
use semantics_toolchain.Scheduler.Job.Lease.{
  next_run_patch, as_text, is_enabled, finish_job, finish_patch, is_due, patch_node, claimed,
  attached, with_object,
}

pub claimed-some :
    (r : Result GraphError (Node × Graph)) (m : Node) (h : Graph)
    → claimed r ≡ ok (some (m, h))
    → r ≡ ok (m, h)
unfolding claimed
claimed-some (ok (m', h')) m h e = ap ok (some_inj (ok_inj e))
claimed-some (err x) m h e = absurd (ground arith)

-- The value that a patch gives to a key.
unfoldable pub last : String → Fields → Option Value
last k end = none
last k (field j v fs) = elim (last k fs) [
  | some w ↦ some w
  | none ↦ if j == k then some v else none
]

get-merge :
    (k : String) (old patch : Fields)
    → get k (merge old patch) ≡ elim (last k patch) [ none ↦ get k old | some v ↦ some v ]
unfolding last merge
get-merge k old end = refl
get-merge k old (field j v patch) =
    ground (arith, get-merge k (put j v old) patch, get-put j k v old)

last-put :
    (k j : String) (v : Value) (fs : Fields) → (j == k) ≡ false → last k (put j v fs) ≡ last k fs
unfolding last put
last-put k j v end h = ground arith
last-put k j v (field i w fs) h =
    ground (arith, last-put k j v fs h, eq_iff i j, eq_iff i k, eq_iff j k)

last-merge :
    (k : String) (fs extra : Fields) → has k extra ≡ false → last k (merge fs extra) ≡ last k fs
unfolding merge has
last-merge k fs end h = refl
last-merge k fs (field j v extra) h =
    ground (arith, last-merge k (put j v fs) extra, last-put k j v fs)

patch_node-properties :
    (g : Graph) (n : Node) (account : ℕ) (patch : Fields) (ref : Option String) {m : Node}
    {h : Graph}
    → patch_node g n account patch ref ≡ ok (m, h)
    → (old : Node) × (m.properties ≡ merge old.properties patch)
unfolding patch_node
patch_node-properties g n account patch ref e =
    let (old, found, merged, reads, others) = get_node-update_node (attached n g) _ e in
    (old, merged)

pub patched_key :
    (g : Graph) (n : Node) (account : ℕ) (patch : Fields) (ref : Option String) {m : Node}
    {h : Graph} (k : String) (v : Value)
    → patch_node g n account patch ref ≡ ok (m, h)
    → last k patch ≡ some v
    → get k m.properties ≡ some v
patched_key g n account patch ref k v e l =
    let (old, merged) = patch_node-properties g n account patch ref e in
    rw merged (ground (arith, get-merge k old.properties patch))

pub same_id_refl : (o : Option ℕ) → same_id o o ≡ true
unfolding same_id
same_id_refl none = refl
same_id_refl (some a) = ground arith

with_object_same : (n : Node) (ns : List Node) → find_node n.id ns ≡ some n → with_object n ns ≡ ns
unfolding with_object find_node
with_object_same n [] there = refl
with_object_same n (m ∷ ns) there = elim (Bool-cases (eqb m.id n.id)) [
  | inl same ↦ rw same (ap (λ x. x ∷ ns) (sym (some_inj (ground arith))))
  | inr apart ↦ rw apart (ap (λ l. m ∷ l) (with_object_same n ns (ground arith)))
]

-- An object that is up to date changes nothing.
pub attached_same : (g : Graph) (n : Node) → get_node g n.id ≡ some n → attached n g ≡ g
unfolding attached
attached_same g n found =
    ap (λ ns. record g { nodes = ns }) (with_object_same n g.nodes (get_node-found g n.id n found))

-- The properties that a finish sets itself, unless the caller's extra ones name them.
abbrev pub Plain : Fields → Type 0
Plain extra =
    (has "claimed_at" extra ≡ false)
    × (has "enabled" extra ≡ false)
    × (has "next_run" extra ≡ false)

finish-last :
    (now : ℕ) (next : Option ℕ) (disable : Bool) (extra : Fields)
    → Plain extra
    → (last "claimed_at" (finish_patch now next disable extra) ≡ some null)
      × (disable ≡ true → last "enabled" (finish_patch now next disable extra) ≡ some (bool false))
      × (disable ≡ false
          → last "next_run" (finish_patch now next disable extra) ≡ some (next_run_patch next))
unfolding finish_patch last
finish-last now next true extra p = (
  last-merge "claimed_at" _ extra p.0,
  λ e. last-merge "enabled" _ extra p.1,
  λ e. absurd (ground arith),
)
finish-last now next false extra p = (
  last-merge "claimed_at" _ extra p.0,
  λ e. absurd (ground arith),
  λ e. last-merge "next_run" _ extra p.2,
)

-- A finish gives the claim back, and either turns the job off, after which it is never due, or sets
-- its next run; extra properties do not touch these if they do not name them.
pub finish_job-releases :
    (render : Value → String) (g : Graph) (n : Node) (account now : ℕ) (next : Option ℕ)
    (disable : Bool) (extra : Fields) (ref : Option String) {m : Node} {h : Graph}
    → Plain extra
    → finish_job g n account now next disable extra ref ≡ ok (m, h)
    → (get "claimed_at" m.properties ≡ some null)
      × (disable ≡ true → (later lease : ℕ) → is_due render later lease m ≡ false)
      × (disable ≡ false → get "next_run" m.properties ≡ some (next_run_patch next))
unfolding finish_job is_due is_enabled as_text
finish_job-releases render g n account now next disable extra ref {m} {h} p e =
    let patch = finish_patch now next disable extra in
    let set = finish-last now next disable extra p in
    (
      patched_key g n account patch ref "claimed_at" null e set.0,
      λ off later lease.
          let disabled = patched_key g n account patch ref "enabled" (bool false) e (set.1 off) in
          ground (arith, disabled),
      λ on. patched_key g n account patch ref "next_run" (next_run_patch next) e (set.2 on),
    )
