-- ===== src/Executor/Order/Fuel.antt =====
-- executor.go, `orderedNodes`: a rule for invariants of the loop, and its fuel.
use ocis_workflows.Base.{
  ℕ, zero, suc, ◌+◌, ◌<◌, Text, teq_iff, ◌≡◌, refl, true, false, some, List, [], ◌∷◌, ◌++◌, arith,
  length, length-append, Bool-cases, inl, inr, if◌then◌else◌,
}
use ocis_workflows.Model.{WorkflowNode, WorkflowEdge, WorkflowGraph}
use ocis_workflows.Executor.Order.{contains, by_id, outgoing, push_found, walk}

-- The edges that no visited node has put on the queue yet.
pub pending : List WorkflowEdge → List Text → ℕ
pending [] visited = 0
pending (e ∷ es) visited =
    let rest = pending es visited in if contains visited e.source then rest else suc rest

pub pending-nil : (es : List WorkflowEdge) → pending es [] ≡ length es
unfolding pending contains
pending-nil [] = refl
pending-nil (e ∷ es) = omega (arith, pending-nil es)

pending-visit :
    (es : List WorkflowEdge) (visited : List Text) (id : Text)
    → contains visited id ≡ false
    → length (outgoing es id) + pending es (id ∷ visited) ≡ pending es visited
unfolding pending outgoing contains
pending-visit [] visited id h = omega arith
pending-visit (e ∷ es) visited id h =
    ground (arith, teq_iff e.source id, teq_iff id e.source, pending-visit es visited id h)

-- What holds at every round, from the start to the end of the walk.
module _ {ℓ} (g : WorkflowGraph) (P : List Text → List Text → List WorkflowNode → Type ℓ)
    (skip : (id : Text) (queue visited : List Text) (ordered : List WorkflowNode)
      → contains visited id ≡ true
      → P (id ∷ queue) visited ordered
      → P queue visited ordered)
    (expand : (id : Text) (queue visited : List Text) (ordered : List WorkflowNode)
      → contains visited id ≡ false
      → P (id ∷ queue) visited ordered
      → P
          (queue ++ outgoing g.edges id)
          (id ∷ visited)
          (push_found (by_id g.nodes id) ordered)) where
  pub walk_inv :
      (fuel : ℕ) (queue visited : List Text) (ordered : List WorkflowNode)
      → length queue + pending g.edges visited < fuel
      → P queue visited ordered
      → (seen : List Text) × (result : List WorkflowNode) × (walk g fuel queue visited ordered
          ≡ some result)
        × P [] seen result
  unfolding walk
  walk_inv zero queue visited ordered m h = elim m [ ]
  walk_inv (suc fuel) [] visited ordered m h = (visited, ordered, refl, h)
  walk_inv (suc fuel) (id ∷ queue) visited ordered m h = elim (Bool-cases (contains visited id)) [
    | inl old ↦
        rw old
          (walk_inv fuel queue visited ordered (omega arith) (skip id queue visited ordered old h))
    | inr new ↦ rw new (
        walk_inv fuel (queue ++ outgoing g.edges id) (id ∷ visited) _
          (omega (
            arith,
            pending-visit g.edges visited id new,
            length-append queue (outgoing g.edges id),
          ))
          (expand id queue visited ordered new h))
  ]
