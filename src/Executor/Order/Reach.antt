-- ===== src/Executor/Order/Reach.antt =====
-- executor.go, `orderedNodes`: the nodes that the walk finds, against the edges of the graph.
use mathlib.Core.Path.{subst⁻¹}
use ocis_workflows.Base.{
  Text, teq_iff, ◌≡◌, ◌∙◌, ap, refl, true, false, ◌||◌, none, some, List, [], ◌∷◌, ◌++◌, map, arith,
  All, All-append, Option-cases, inl, inr, is_empty,
}
use ocis_workflows.Model.{WorkflowNode, WorkflowGraph}
use ocis_workflows.Executor.Order.{
  contains, by_id, outgoing, start_id, push_found, walk, enough, ordered_nodes,
}
use ocis_workflows.Executor.Order.Fuel.{pending-nil, walk_inv}

-- The ids that a chain of edges joins to `start`.
pub data Reaches (g : WorkflowGraph) (start : Text) : Text → Type 0 where
  here : Reaches g start start
  next :
      {u v : Text} → Reaches g start u → contains (outgoing g.edges u) v ≡ true → Reaches g start v

abbrev pub ids : List WorkflowNode → List Text
ids = map (λ n. n.id)

-- No id twice.
abbrev pub Distinct : List Text → Type 0
Distinct [] = Unit
Distinct (x ∷ xs) = (contains xs x ≡ false) × Distinct xs

pub contains-append :
    (xs ys : List Text) (a : Text) → contains (xs ++ ys) a ≡ (contains xs a || contains ys a)
unfolding contains
contains-append [] ys a = refl
contains-append (x ∷ xs) ys a = ground (arith, contains-append xs ys a)

Distinct-snoc :
    (xs : List Text) (a : Text) → contains xs a ≡ false → Distinct xs → Distinct (xs ++ a ∷ [])
unfolding contains
Distinct-snoc [] a h d = (refl, tt)
Distinct-snoc (x ∷ xs) a h d = (
  ground (arith, contains-append xs (a ∷ []) x, teq_iff x a, teq_iff a x),
  Distinct-snoc xs a (ground arith) d.1,
)

All-contains {ℓ} :
    (P : Text → Type ℓ) (xs : List Text) → ((a : Text) → contains xs a ≡ true → P a) → All P xs
unfolding contains
All-contains P [] h = tt
All-contains P (x ∷ xs) h =
    (h x (ground (arith, teq_iff x x)), All-contains P xs (λ a m. h a (ground arith)))

ids-snoc : (ns : List WorkflowNode) (n : WorkflowNode) → ids (ns ++ n ∷ []) ≡ ids ns ++ n.id ∷ []
ids-snoc [] n = refl
ids-snoc (m ∷ ns) n = ap (λ r. m.id ∷ r) (ids-snoc ns n)

pub id_of-by_id :
    (ns : List WorkflowNode) (id : Text) (n : WorkflowNode) → by_id ns id ≡ some n → n.id ≡ id
unfolding by_id
id_of-by_id [] id n h = ground arith
id_of-by_id (m ∷ ns) id n h = elim (Option-cases (by_id ns id)) [
  | inl e ↦ ground (arith, teq_iff m.id id)
  | inr (k, e) ↦ ground (arith, id_of-by_id ns id n)
]

-- A result node is the one that its id names, and the edges lead to it.
abbrev pub Found : WorkflowGraph → Text → WorkflowNode → Type 0
Found g start n = (by_id g.nodes n.id ≡ some n) × Reaches g start n.id

record Inv (g : WorkflowGraph) (start : Text) (queue visited : List Text)
    (ordered : List WorkflowNode) : Type 0 where
  found : All (Found g start) ordered
  queued : All (Reaches g start) queue
  listed :
      (id : Text) (n : WorkflowNode)
      → contains visited id ≡ true
      → by_id g.nodes id ≡ some n
      → contains (ids ordered) id ≡ true
  closed :
      (u v : Text)
      → contains visited u ≡ true
      → contains (outgoing g.edges u) v ≡ true
      → (contains visited v || contains queue v) ≡ true
  started : (contains visited start || contains queue start) ≡ true
  distinct : Distinct (ids ordered)
  seen : (id : Text) → contains (ids ordered) id ≡ true → contains visited id ≡ true

module _ (g : WorkflowGraph) (start : Text) where
  Inv-skip :
      (id : Text) (queue visited : List Text) (ordered : List WorkflowNode)
      → contains visited id ≡ true
      → Inv g start (id ∷ queue) visited ordered
      → Inv g start queue visited ordered
  unfolding contains
  Inv-skip id queue visited ordered old v = record {
    found = v.found;
    queued = v.queued.1;
    listed = v.listed;
    closed = λ a b m e. ground (arith, v.closed a b m e, teq_iff id b);
    started = ground (arith, v.started, teq_iff id start);
    distinct = v.distinct;
    seen = v.seen;
  }

  closed-expand :
      (id : Text) (queue visited : List Text) (ordered : List WorkflowNode)
      → Inv g start (id ∷ queue) visited ordered
      → (u v : Text) → contains (id ∷ visited) u ≡ true
      → contains (outgoing g.edges u) v ≡ true
      → (contains (id ∷ visited) v || contains (queue ++ outgoing g.edges id) v) ≡ true
  unfolding contains
  closed-expand id queue visited ordered h u v m e = ground (
    arith,
    h.closed u v,
    contains-append queue (outgoing g.edges id) v,
    teq_iff id v,
    teq_iff id u,
  )

  Inv-expand_none :
      (id : Text) (queue visited : List Text) (ordered : List WorkflowNode)
      → by_id g.nodes id ≡ none
      → Inv g start (id ∷ queue) visited ordered
      → Inv g start (queue ++ outgoing g.edges id) (id ∷ visited) ordered
  unfolding contains
  Inv-expand_none id queue visited ordered e v = record {
    found = v.found;
    queued =
        All-append (Reaches g start) queue (outgoing g.edges id) v.queued.1
          (All-contains (Reaches g start) _ (λ a m. next v.queued.0 m));
    listed = λ a n m f. ground (arith, teq_iff id a, v.listed a n);
    closed = closed-expand id queue visited ordered v;
    started =
        ground
          (arith, v.started, contains-append queue (outgoing g.edges id) start, teq_iff id start);
    distinct = v.distinct;
    seen = λ a m. ground (arith, v.seen a m);
  }

  Inv-expand_some :
      (id : Text) (queue visited : List Text) (ordered : List WorkflowNode) (n : WorkflowNode)
      → contains visited id ≡ false
      → by_id g.nodes id ≡ some n
      → Inv g start (id ∷ queue) visited ordered
      → Inv g start (queue ++ outgoing g.edges id) (id ∷ visited) (ordered ++ n ∷ [])
  unfolding contains
  Inv-expand_some id queue visited ordered n new e v =
      let named : n.id ≡ id = id_of-by_id g.nodes id n e in
      let found_n : Found g start n =
        (ap (by_id g.nodes) named ∙ e, subst⁻¹ (Reaches g start) named v.queued.0) in
      record {
        found = All-append (Found g start) ordered (n ∷ []) v.found (found_n, tt);
        queued =
            All-append (Reaches g start) queue (outgoing g.edges id) v.queued.1
              (All-contains (Reaches g start) _ (λ a m. next v.queued.0 m));
        listed = λ a k m f.
            rw (ids-snoc ordered n, contains-append (ids ordered) (n.id ∷ []) a)
              (ground (arith, teq_iff id a, teq_iff n.id a, v.listed a k));
        closed = closed-expand id queue visited ordered v;
        started =
            ground (
              arith,
              v.started,
              contains-append queue (outgoing g.edges id) start,
              teq_iff id start,
            );
        distinct =
            rw (ids-snoc ordered n)
              (Distinct-snoc (ids ordered) n.id (ground (arith, v.seen n.id)) v.distinct);
        seen = λ a m. ground (
          arith,
          ids-snoc ordered n,
          contains-append (ids ordered) (n.id ∷ []) a,
          v.seen a,
          teq_iff n.id a,
          teq_iff id a,
        );
      }

  Inv-expand :
      (id : Text) (queue visited : List Text) (ordered : List WorkflowNode)
      → contains visited id ≡ false
      → Inv g start (id ∷ queue) visited ordered
      → Inv g start
          (queue ++ outgoing g.edges id)
          (id ∷ visited)
          (push_found (by_id g.nodes id) ordered)
  Inv-expand id queue visited ordered new v = elim (Option-cases (by_id g.nodes id)) [
    | inl e ↦ rw e (Inv-expand_none id queue visited ordered e v)
    | inr (n, e) ↦ rw e (Inv-expand_some id queue visited ordered n new e v)
  ]

  Inv-start : Inv g start (start ∷ []) [] []
  unfolding contains
  Inv-start = record {
    found = tt;
    queued = (here, tt);
    listed = λ a n m e. cc;
    closed = λ a b m e. cc;
    started = ground (arith, teq_iff start start);
    distinct = tt;
    seen = λ a m. cc;
  }

-- Once the queue is empty, what the edges lead to has been visited.
Reaches-visited :
    (g : WorkflowGraph) (start : Text) {visited : List Text} {result : List WorkflowNode} (v : Text)
    → Inv g start [] visited result
    → Reaches g start v
    → contains visited v ≡ true
unfolding contains
Reaches-visited g start v inv here = ground (arith, inv.started)
Reaches-visited g start v inv (next {u = u} r e) =
    ground (arith, inv.closed u v (Reaches-visited g start u inv r) e)

-- The whole of what `orderedNodes` promises of its result.
pub record IsWalk (g : WorkflowGraph) (start : Text) (result : List WorkflowNode) : Type 0 where
  pub found : All (Found g start) result
  pub complete :
      (id : Text) (n : WorkflowNode)
      → Reaches g start id
      → by_id g.nodes id ≡ some n
      → contains (ids result) id ≡ true
  pub distinct : Distinct (ids result)

walk-IsWalk :
    (g : WorkflowGraph) (start : Text)
    → (result : List WorkflowNode) × (walk g (enough g) (start ∷ []) [] [] ≡ some result)
      × IsWalk g start result
walk-IsWalk g start =
    let (seen, result, e, inv) =
      walk_inv g (Inv g start) (Inv-skip g start) (Inv-expand g start) (enough g) (start ∷ []) [] []
        (omega (arith, pending-nil g.edges)) (Inv-start g start) in
    (
      result,
      e,
      record {
        found = inv.found;
        complete = λ id n r f. inv.listed id n (Reaches-visited g start id inv r) f;
        distinct = inv.distinct;
      },
    )

-- For a graph with a trigger node whose id is not empty, the loop ends by itself, and the result
-- holds, each once, exactly the nodes that the edges lead to from the trigger node: each node of
-- the result is the one its id names and is led to, and each id that is led to and names a node is
-- in the result.
pub ordered_nodes-IsWalk :
    (g : WorkflowGraph)
    → is_empty (start_id g.nodes) ≡ false
    → (walk g (enough g) (start_id g.nodes ∷ []) [] [] ≡ some (ordered_nodes g))
      × IsWalk g (start_id g.nodes) (ordered_nodes g)
unfolding ordered_nodes
ordered_nodes-IsWalk g h =
    let (result, e, w) = walk-IsWalk g (start_id g.nodes) in rw (h, e) (refl, w)

-- Without a trigger node, or with one whose id is empty, nothing runs.
pub ordered_nodes_no_trigger : (g : WorkflowGraph) → start_id g.nodes ≡ [] → ordered_nodes g ≡ []
unfolding ordered_nodes
ordered_nodes_no_trigger g h = rw h
