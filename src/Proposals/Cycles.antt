-- ===== src/Proposals/Cycles.antt =====
-- Lemmas on the batches that `order_proposals` of proposals.py gives up.
use semantics_toolchain.Json.Convert.{uuid_of}
use semantics_toolchain.Prelude.{
  Option-cases, All, All-zip, ℕ, Bool, true, false, Option, none, some, List, [], ◌∷◌, map, ◌≡◌,
  ◌≢◌, refl, sym, ap, ◌∙◌, subst, inl, inr, arith, if◌then◌else◌, length, Result, ok, err, ◌>>=◌,
  err_inj, Result-cases, require, In, In-map, All-In, Bool-cases, eqb, eqb_iff,
}
use mathlib.Core.List.{cons≢nil}
use semantics_toolchain.Json.{truthy, end, get, obj, Value, Fields}
use semantics_toolchain.Access.{is_member}
use semantics_toolchain.Proposals.Staged.{
  wrong_type, Proposal, ProposalError, circular, outside_batch, object_or_empty, true_value,
  any_uuid,
}
use semantics_toolchain.Proposals.Ordering.{
  Pending, in_batch, dependency, dependencies, uuid_if_given, rounds, batch_ids, order_pending,
  order_proposals,
}
use semantics_toolchain.Proposals.Batches.{IsStuck, Outcome}
use semantics_toolchain.Proposals.Order.{
  IsRead, IsResolved, dependencies-IsResolved, ids-proposals, rounds-resolved,
}

abbrev is_circular : ProposalError → Bool
is_circular circular = true
is_circular e = false

-- A step that does not raise the error of a cycle.
abbrev NoCycle : {A : Type 0} → Result ProposalError A → Type 0
NoCycle (ok a) = Unit
NoCycle (err e) = is_circular e ≡ false

bind-NoCycle :
    {A B : Type 0} (r : Result ProposalError A) (f : A → Result ProposalError B)
    → NoCycle r
    → ((a : A) → NoCycle (f a))
    → NoCycle (r >>= f)
bind-NoCycle (ok a) f u v = v a
bind-NoCycle (err e) f u v = u

any_uuid-NoCycle : (v : Value) → NoCycle (any_uuid v)
unfolding any_uuid
any_uuid-NoCycle v = elim (Option-cases (uuid_of v)) [
  | inl bad ↦ rw (any_uuid, bad) refl
  | inr (i, good) ↦ rw (any_uuid, good) tt
]

wrong_type-NoCycle : (b : Bool) → NoCycle {A = Fields} (if b then err wrong_type else ok end)
wrong_type-NoCycle true = refl
wrong_type-NoCycle false = tt

object_or_empty-NoCycle : (o : Option Value) → NoCycle (object_or_empty o)
unfolding object_or_empty
object_or_empty-NoCycle none = tt
object_or_empty-NoCycle (some (obj fs)) = tt
object_or_empty-NoCycle (some v) = wrong_type-NoCycle (truthy v)

dependency-NoCycle : (p : Proposal) → NoCycle (dependency p)
unfolding dependency uuid_if_given
dependency-NoCycle p =
    bind-NoCycle (object_or_empty (get "parent" p.payload)) _
      (object_or_empty-NoCycle (get "parent" p.payload))
      (λ parent. given (true_value "proposal_id" parent))
  where
    given : (o : Option Value) → NoCycle (uuid_if_given o)
    given none = tt
    given (some raw) = bind-NoCycle (any_uuid raw) _ (any_uuid-NoCycle raw) (λ i. tt)

dependencies-NoCycle : (known : List ℕ) (ps : List Proposal) → NoCycle (dependencies known ps)
unfolding dependencies
dependencies-NoCycle known [] = tt
dependencies-NoCycle known (p ∷ ps) = bind-NoCycle (dependency p) _ (dependency-NoCycle p) (λ d.
    bind-NoCycle (require (in_batch known d) outside_batch) _ (required (in_batch known d))
      (λ u. bind-NoCycle (dependencies known ps) _ (dependencies-NoCycle known ps) (λ rest. tt)))
  where
    required : (b : Bool) → NoCycle (require b outside_batch)
    required true = tt
    required false = refl

order_proposals-err :
    (ps : List Proposal) (x : ProposalError)
    → dependencies (batch_ids ps) ps ≡ err x
    → order_proposals ps ≡ err x
unfolding order_proposals order_pending
order_proposals-err ps x e = rw e refl

order_proposals-ok :
    (ps : List Proposal) (es : List Pending)
    → dependencies (batch_ids ps) ps ≡ ok es
    → order_proposals ps ≡ (rounds (length es) [] es >>= λ sorted. ok (map (λ e. e.0) sorted))
unfolding order_proposals order_pending
order_proposals-ok ps es e = rw e refl

map-empty : (es : List Pending) → map (λ (e : Pending). e.0) es ≡ [] → es ≡ []
map-empty [] h = refl
map-empty (e ∷ es) h = absurd (cons≢nil h)

-- A proposal of a list with a given id.
holder :
    (d : ℕ) (ps : List Proposal)
    → is_member d (batch_ids ps) ≡ true
    → (q : Proposal) × In q ps × (q.id ≡ d)
unfolding is_member batch_ids
holder d [] h = absurd (ground arith)
holder d (p ∷ ps) h = elim (Bool-cases (eqb p.id d)) [
  | inl same ↦ (p, inl refl, (eqb_iff p.id d).0 same)
  | inr apart ↦ let (q, there, id) = holder d ps (ground arith) in (q, inr there, id)
]

-- A proposal of the batch that is to be contained in one of `stuck`.
abbrev pub Waits : List Proposal → List Proposal → Proposal → Type 0
Waits ps stuck p = In p ps × (q : Proposal) × In q stuck × (dependency p ≡ ok (some q.id))

All-over_map :
    (P : Proposal → Type 0) (es : List Pending) → All (λ e. P e.0) es → All P (map (λ e. e.0) es)
All-over_map P [] h = tt
All-over_map P (e ∷ es) h = (h.0, All-over_map P es h.1)

-- Entries that wait for one another, as proposals.
stuck_proposals :
    (ps : List Proposal) (es stuck : List Pending)
    → IsResolved (batch_ids ps) ps es
    → IsStuck es stuck
    → (map (λ e. e.0) stuck ≢ []) × All (Waits ps (map (λ e. e.0) stuck)) (map (λ e. e.0) stuck)
stuck_proposals ps es stuck r s =
    let in_batch_of : All (λ (e : Pending). In e.0 ps) es =
      All-In es (λ e m. subst (In e.0) r.same (In-map (λ (x : Pending). x.0) e es m)) in
    (
      λ e. s.some_left (map-empty stuck e),
      All-over_map _ stuck (
          All-zip
            {Q = λ (e : Pending).
              (q : Proposal) × In q (map (λ x. x.0) stuck) × (dependency e.0 ≡ ok (some q.id))}
            stuck (λ e inside (q, there, at). (inside, q, there, at))
            (s.keeps (λ e. In e.0 ps) in_batch_of)
            (All-zip stuck
              (λ e (d, at, m) read.
                let (q, there, id) =
                  holder d (map (λ (x : Pending). x.0) stuck)
                    (subst (λ l. is_member d l ≡ true) (sym (ids-proposals stuck)) m) in
                (q, there, read ∙ ap ok (at ∙ ap some (sym id))))
              s.waiting (s.keeps IsRead r.reads))),
    )

-- The loop gives up only on a cycle: then there are proposals of the batch, one at least, each of
-- which is to be contained in one of them.
pub order_proposals-circular :
    (ps : List Proposal)
    → order_proposals ps ≡ err circular
    → (stuck : List Proposal) × (stuck ≢ []) × All (Waits ps stuck) stuck
unfolding order_proposals order_pending
order_proposals-circular ps h = elim (Result-cases (dependencies (batch_ids ps) ps)) [
  | inr (x, unread) ↦
      let no_cycle = subst NoCycle unread (dependencies-NoCycle (batch_ids ps) ps) in
      let same : x ≡ circular = err_inj (sym (order_proposals-err ps x unread) ∙ h) in
      absurd (ground arith)
  | inl (es, read) ↦
      let looped = sym (order_proposals-ok ps es read) ∙ h in
      let r = dependencies-IsResolved (batch_ids ps) ps read in
      elim (Result-cases (rounds (length es) [] es)) [
        | inl (sorted, done) ↦ absurd (ground arith)
        | inr (y, gave_up) ↦
            let (same, stuck, s) = subst (Outcome [] es) gave_up (rounds-resolved ps es r) in
            let (some_left, waiting) = stuck_proposals ps es stuck r s in
            (map (λ e. e.0) stuck, some_left, waiting)
      ]
]
