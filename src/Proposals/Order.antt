-- ===== src/Proposals/Order.antt =====
-- Lemmas on the batches that `order_proposals` of proposals.py orders and refuses.
use semantics_toolchain.Prelude.{
  All, All-imp, ℕ, ◌≤◌, true, some, List, [], ◌∷◌, map, ◌≡◌, refl, sym, ap, ◌∙◌, subst, arith,
  length, ok, >>=-eq-ok, ok_inj, require, require-eq-ok,
}
use semantics_toolchain.Access.{is_member}
use semantics_toolchain.Proposals.Staged.{Proposal, outside_batch}
use semantics_toolchain.Proposals.Ordering.{
  Pending, ids, in_batch, dependency, dependencies, rounds, batch_ids, order_pending,
  order_proposals,
}
use semantics_toolchain.Proposals.Emitting.{ParentsFirst}
use semantics_toolchain.Proposals.Batches.{IsOrdered, Outcome, rounds-Outcome}

-- A proposal that depends on a sibling stands after it; `known` are the ones before the list.
abbrev pub InOrder : List ℕ → List Proposal → Type 0
InOrder known [] = Unit
InOrder known (p ∷ ps) =
    ((d : ℕ) → dependency p ≡ ok (some d) → is_member d known ≡ true) × InOrder (p.id ∷ known) ps

abbrev pub IsRead : Pending → Type 0
IsRead e = dependency e.0 ≡ ok e.1

-- What the first loop has read.
pub record IsResolved (known : List ℕ) (ps : List Proposal) (es : List Pending) : Type 0 where
  pub same : map (λ e. e.0) es ≡ ps
  pub reads : All IsRead es
  pub inside : All (λ e. in_batch known e.1 ≡ true) es

pub dependencies-IsResolved :
    (known : List ℕ) (ps : List Proposal) {es : List Pending}
    → dependencies known ps ≡ ok es
    → IsResolved known ps es
unfolding dependencies
dependencies-IsResolved known [] {es} h =
    subst (IsResolved known []) (ok_inj h) (record { same = refl; reads = tt; inside = tt })
dependencies-IsResolved known (p ∷ ps) {es} h =
    let (d, read, later) = >>=-eq-ok (dependency p) _ h in
    let (u, inside, more) = >>=-eq-ok (require (in_batch known d) outside_batch) _ later in
    let (rest, resolved, made) =
      >>=-eq-ok (dependencies known ps) (λ rest. ok ((p, d) ∷ rest)) more in
    let r = dependencies-IsResolved known ps resolved in
    subst (IsResolved known (p ∷ ps)) (ok_inj made) (record {
      same = ap (λ l. p ∷ l) r.same;
      reads = (read, r.reads);
      inside = (require-eq-ok (in_batch known d) outside_batch inside, r.inside);
    })

pub ids-proposals : (es : List Pending) → batch_ids (map (λ e. e.0) es) ≡ ids es
unfolding batch_ids
ids-proposals [] = refl
ids-proposals (e ∷ es) = ap (λ l. e.0.id ∷ l) (ids-proposals es)

pub ParentsFirst-InOrder :
    (known : List ℕ) (es : List Pending)
    → All IsRead es
    → ParentsFirst known es
    → InOrder known (map (λ e. e.0) es)
ParentsFirst-InOrder known [] r f = tt
ParentsFirst-InOrder known ((p, o) ∷ es) r f = (
  λ d e. subst (λ x. in_batch known x ≡ true) (ok_inj (sym r.0 ∙ e)) f.0,
  ParentsFirst-InOrder (p.id ∷ known) es r.1 f.1,
)

pub resolved-ids :
    (known : List ℕ) (ps : List Proposal) (es : List Pending)
    → IsResolved known ps es
    → batch_ids ps ≡ ids es
resolved-ids known ps es r = ap batch_ids (sym r.same) ∙ ids-proposals es

pub rounds-resolved :
    (ps : List Proposal) (es : List Pending)
    → IsResolved (batch_ids ps) ps es
    → Outcome [] es (rounds (length es) [] es)
unfolding is_member
rounds-resolved ps es r =
    rounds-Outcome (length es) [] es (omega arith) (λ i m. refl)
      (All-imp es
        (λ e inside d at. member d (subst (λ x. in_batch (batch_ids ps) x ≡ true) at inside))
        r.inside)
  where
    member : (d : ℕ) → is_member d (batch_ids ps) ≡ true → is_member d (ids es) ≡ true
    member d m = subst (λ l. is_member d l ≡ true) (resolved-ids (batch_ids ps) ps es r) m

pub length-proposals : (es : List Pending) → length (map (λ e. e.0) es) ≡ length es
length-proposals [] = refl
length-proposals (e ∷ es) = omega (arith, length-proposals es)

abbrev pub IsSorted : List Proposal → List Proposal → Type 0
IsSorted ps out =
    InOrder [] out
    × ((i : ℕ) → (is_member i (batch_ids out) ≡ is_member i (batch_ids ps)))
    × (length out ≤ length ps)

-- A batch that is put in order has each proposal after the sibling that it is to be contained in,
-- and holds the same proposals as before, none of them twice if none was twice before.
pub order_proposals-InOrder :
    (ps : List Proposal) {out : List Proposal}
    → order_proposals ps ≡ ok out
    → InOrder [] out
      × ((i : ℕ) → (is_member i (batch_ids out) ≡ is_member i (batch_ids ps)))
      × (length out ≤ length ps)
unfolding order_proposals order_pending
order_proposals-InOrder ps {out} h =
    let (sorted, run, made) = >>=-eq-ok (order_pending ps) (λ es. ok (map (λ e. e.0) es)) h in
    let (es, resolved, looped) =
      >>=-eq-ok (dependencies (batch_ids ps) ps) (λ es. rounds (length es) [] es) run in
    let r = dependencies-IsResolved (batch_ids ps) ps resolved in
    let o : IsOrdered [] es sorted = subst (Outcome [] es) looped (rounds-resolved ps es r) in
    subst (IsSorted ps) (ok_inj made) (
      ParentsFirst-InOrder [] sorted (o.keeps IsRead r.reads) (o.first [] (λ i m. m)),
      λ i. ground (
        arith,
        o.sound i,
        o.complete i,
        ids-proposals sorted,
        resolved-ids (batch_ids ps) ps es r,
      ),
      omega (
        arith,
        o.at_most,
        length-proposals sorted,
        length-proposals es,
        ap (λ (l : List Proposal). length l) r.same,
      ),
    )
