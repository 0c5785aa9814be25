-- ===== src/Consensus/Protocol/Proposal.antt =====
-- The vertex that a node makes for its next round (consensus/consensus.cpp, lines 83 to 88).
use dag_rider.Prelude.{
  ℕ, ◌+◌, ◌-◌, ◌%◌, ◌≤◌, ◌<◌, ◌≡◌, refl, inl, inr, Memᴰ, some, arith, ltb, Bool-cases, some_eq, ◌∙◌,
  subst, sym, All-intro,
}
use dag_rider.Containers.{values, mem-of_find}
use dag_rider.Model.External.{External}
use dag_rider.Model.Block.{Block}
use dag_rider.Model.Vertex.{Vertex, u64_mod}
use dag_rider.Model.Vertex
use dag_rider.Consensus.Dag.{Dag, bucket, get_vertices}
use dag_rider.Consensus.Dag.Search.{LinkPath}
use dag_rider.Consensus.Dag.Lookup.{get_vertex-of_mem, get_vertices-get_vertex}
use dag_rider.Consensus.Dag.Insertion.{IsWellFormed, values-IsPlaced}
use dag_rider.Consensus.Protocol.{Consensus, new_vertex, set_weak_edges}
use dag_rider.Consensus.Protocol.WeakEdges.{set_weak_edges-covers}

mem-get_vertices :
    (dag : Dag) (w : Vertex) (r : ℕ)
    → IsWellFormed dag
    → Memᴰ w (values (bucket dag r))
    → Memᴰ (w.hash, r) (get_vertices dag r)
mem-get_vertices dag w r ok m =
    let (p, held) = get_vertex-of_mem dag w r m in
    mem-of_find w.hash (get_vertices dag r) (
      get_vertices-get_vertex dag w.hash r
        (All-intro _ (values (bucket dag r)) (λ v there. (values-IsPlaced dag r v ok there).0))
      ∙ rw held refl)

-- When the node makes a vertex for a round from 2 on over a well-formed graph, the vertex is the
-- node's and of that round; its hash is the one computed over the parents in the round before alone,
-- whatever parents setWeakEdges adds; every vertex that the graph holds in that round is a parent of it;
-- and a path of parents leads from it to every vertex of a round three or more below.
pub new_vertex-covers :
    (ext : External) (fuel : ℕ) (c : Consensus) (round : ℕ) (block : Block) (v : Vertex)
    → IsWellFormed c.state.dag
    → 2 ≤ round
    → round < u64_mod
    → new_vertex ext fuel c round block ≡ some v
    → (v.owner ≡ c.node_id)
      × (v.round ≡ round)
      × (v.hash
          ≡ (Vertex.create ext c.node_id round block
              (get_vertices c.state.dag ((round + u64_mod - 1) % u64_mod))).hash)
      × ((w : Vertex)
          → Memᴰ w (values (bucket c.state.dag (round - 1)))
          → Memᴰ (w.hash, round - 1) v.parents)
      × ((r : ℕ) (w : Vertex)
          → 0 < r
          → r + 3 ≤ round
          → Memᴰ w (values (bucket c.state.dag r))
          → LinkPath c.state.dag w v)
unfolding new_vertex Vertex.create
new_vertex-covers ext fuel c round block v ok low high e =
    let before : (round + u64_mod - 1) % u64_mod ≡ round - 1 = omega arith in
    let base : Vertex =
      Vertex.create ext c.node_id round block
        (get_vertices c.state.dag ((round + u64_mod - 1) % u64_mod)) in
    let strong : (w : Vertex)
        → Memᴰ w (values (bucket c.state.dag (round - 1)))
        → Memᴰ (w.hash, round - 1) base.parents =
      λ w m.
        subst (λ k. Memᴰ (w.hash, round - 1) (get_vertices c.state.dag k)) (sym before)
          (mem-get_vertices c.state.dag w (round - 1) ok m) in
    elim (Bool-cases (ltb 2 round)) [
      | inl later ↦
          let run : set_weak_edges fuel c.state.dag base round ≡ some v =
            rw (later, new_vertex) at e in
          let (grown, paths) =
            set_weak_edges-covers fuel c.state.dag base v ok (ground arith) high run in
          (
            grown.owner_same,
            grown.round_same,
            grown.hash_same,
            λ w m. grown.keeps w.hash (round - 1) (strong w m),
            paths,
          )
      | inr early ↦
          let same : base ≡ v = some_eq (rw (early, new_vertex) at e) in
          subst
            (λ (x : Vertex).
              (x.owner ≡ c.node_id)
              × (x.round ≡ round)
              × (x.hash ≡ base.hash)
              × ((w : Vertex)
                  → Memᴰ w (values (bucket c.state.dag (round - 1)))
                  → Memᴰ (w.hash, round - 1) x.parents)
              × ((r : ℕ) (w : Vertex)
                  → 0 < r
                  → r + 3 ≤ round
                  → Memᴰ w (values (bucket c.state.dag r))
                  → LinkPath c.state.dag w x))
            same (refl, refl, refl, strong, λ r w pos le m. absurd (ground arith))
    ]
