-- ===== src/Access/Subtree.antt =====
-- `containment_subtree`: the anchor and everything below it in the containment forest.
use semantics_toolchain.Prelude.{
  ℕ, zero, suc, Bool, not, Option, none, some, List, [], ◌∷◌, length, if◌then◌else◌, ◌==◌, ◌&&◌,
}
use semantics_toolchain.Graph.{Edge, Graph, contained_in}
use semantics_toolchain.Access.Reading.{is_member}

-- An active edge of containment whose container is in the set and whose source is not.
unfoldable pub extends : List ℕ → Edge → Bool
extends sub e =
    (e.type == contained_in)
    && (e.active && (is_member e.dst_node sub && not (is_member e.src_node sub)))

unfoldable pub next_source : List ℕ → List Edge → Option ℕ
next_source sub [] = none
next_source sub (e ∷ es) = if extends sub e then some e.src_node else next_source sub es

-- The recursive query adds rows until it finds no new one.
unfoldable pub closure : ℕ → List Edge → List ℕ → List ℕ
closure zero es sub = sub
closure (suc fuel) es sub = elim (next_source sub es) [
  | none ↦ sub
  | some x ↦ closure fuel es (x ∷ sub)
]

-- Every row but the first is the source of an edge, so the edges bound the rows.
unfoldable pub containment_subtree : Graph → ℕ → List ℕ
containment_subtree g anchor = closure (length g.edges) g.edges (anchor ∷ [])
