-- ===== src/Consensus/Protocol/Accepted.antt =====
-- Whether the vertex that a node makes (consensus/consensus.cpp, lines 83 to 103) enters the graph of
-- another (lines 56 to 59).
use dag_rider.Prelude.{
  ℕ, zero, suc, ◌+◌, ◌-◌, ◌%◌, ◌≤◌, ◌≡◌, refl, sym, subst, List, [], ◌∷◌, true, some, arith, ltb,
  leb, All, All-mem, All-intro, ltb→lt, ◌<◌, Bool-cases, Option-cases, inl, inr, some_eq,
}
use dag_rider.Containers.{find, values}
use dag_rider.Containers.Ordered
use dag_rider.Model.External.{External}
use dag_rider.Model.Block.{Block}
use dag_rider.Model.Vertex.{Vertex, u64_mod, add_parent}
use dag_rider.Model.Vertex
use dag_rider.Consensus.Dag.{
  Dag, bucket, vertices_of, collect_hashes, get_vertices, insert_vertex, is_linked,
}
use dag_rider.Consensus.Dag.Turns.{IsLayered}
use dag_rider.Consensus.Dag.Lookup.{IsHeld, get_vertex-of_mem, contains_vertices_iff}
use dag_rider.Consensus.Dag.Insertion.{IsWellFormed, values-IsPlaced}
use dag_rider.Consensus.Protocol.{
  Consensus, link_round, weak_edges_loop, set_weak_edges, new_vertex,
}
use dag_rider.Consensus.Protocol.Loop.{set_dag, admit}

collect_hashes-All :
    (P : ℕ × ℕ → Type 0) (vs : List Vertex) (result : List (ℕ × ℕ))
    → All (λ (v : Vertex). P (v.hash, v.round)) vs
    → All P result
    → All P (collect_hashes vs result)
unfolding collect_hashes
collect_hashes-All P [] result each h = h
collect_hashes-All P (v ∷ vs) result each h =
    collect_hashes-All P vs (Ordered.insert v.hash v.round result) each.1
      (Ordered.All-insert P v.hash v.round result each.0 h)

-- What holds of the hash and the round of each vertex in the rounds from which parents are taken holds of
-- the parents.
module _ (dag : Dag) (P : ℕ × ℕ → Type 0) where
  abbrev HoldsIn : ℕ → Type 0
  HoldsIn r = All (λ (v : Vertex). P (v.hash, r)) (values (bucket dag r))

  get_vertices-All : (r : ℕ) → IsWellFormed dag → HoldsIn r → All P (get_vertices dag r)
  unfolding get_vertices
  get_vertices-All r ok each =
      let placed : All (λ (v : Vertex). P (v.hash, v.round)) (values (bucket dag r)) =
        All-intro _ (values (bucket dag r)) (λ v m.
          subst (λ k. P (v.hash, k)) (sym (values-IsPlaced dag r v ok m).0)
            (All-mem (λ (v : Vertex). P (v.hash, r)) (values (bucket dag r)) each m)) in
      elim (Option-cases (find r dag.graph)) [
        | inl e ↦ rw (e, get_vertices) tt
        | inr (vs, e) ↦
            rw (e, get_vertices)
              (collect_hashes-All P (values vs) []
                (subst (λ o. All (λ (v : Vertex). P (v.hash, v.round)) (values (vertices_of o))) e
                  placed)
                tt)
      ]

  link_round-All :
      (fuel r : ℕ) (vs : List Vertex) (v w : Vertex)
      → All (λ (u : Vertex). P (u.hash, r)) vs
      → All P v.parents
      → link_round fuel dag r vs v ≡ some w
      → All P w.parents
  unfolding link_round add_parent
  link_round-All fuel r [] v w each h e = subst (λ (x : Vertex). All P x.parents) (some_eq e) h
  link_round-All fuel r (u ∷ vs) v w each h e = elim (Option-cases (is_linked fuel dag v u)) [
    | inl n ↦ cc (rw (n, link_round) at e)
    | inr (linked, n) ↦
        let rest = rw (n, link_round) at e in
        elim (Bool-cases linked) [
          | inl reached ↦ link_round-All fuel r vs v w each.1 h (rw reached at rest)
          | inr apart ↦
              link_round-All fuel r vs (add_parent v u.hash r) w each.1
                (Ordered.All-insert P u.hash r v.parents each.0 h) (rw apart at rest)
        ]
  ]

  weak_edges_loop-All :
      (fuel r : ℕ) (v w : Vertex)
      → ((k : ℕ) → k ≤ r → HoldsIn k)
      → All P v.parents
      → weak_edges_loop fuel dag r v ≡ some w
      → All P w.parents
  unfolding weak_edges_loop
  weak_edges_loop-All fuel zero v w each h e = subst (λ (x : Vertex). All P x.parents) (some_eq e) h
  weak_edges_loop-All fuel (suc r) v w each h e =
      elim (Option-cases (link_round fuel dag (suc r) (values (bucket dag (suc r))) v)) [
        | inl n ↦ cc (rw (n, weak_edges_loop) at e)
        | inr (u, n) ↦
            weak_edges_loop-All fuel r u w (λ k le. each k (omega arith))
              (link_round-All fuel (suc r) (values (bucket dag (suc r))) v u
                (each (suc r) (omega arith)) h n)
              (rw (n, weak_edges_loop) at e)
      ]

new_vertex-All :
    (P : ℕ × ℕ → Type 0) (ext : External) (fuel : ℕ) (c : Consensus) (round : ℕ) (block : Block)
    (v : Vertex)
    → IsWellFormed c.state.dag
    → 0 < round
    → round < u64_mod
    → ((k : ℕ) → k < round → HoldsIn c.state.dag P k)
    → new_vertex ext fuel c round block ≡ some v
    → All P v.parents
unfolding new_vertex Vertex.create set_weak_edges
new_vertex-All P ext fuel c round block v ok low high each e =
    let strong =
      get_vertices-All c.state.dag P ((round + u64_mod - 1) % u64_mod) ok (each _ (omega arith)) in
    elim (Bool-cases (ltb 2 round)) [
      | inl later ↦
          let above : 2 < round = ltb→lt 2 round later in
          weak_edges_loop-All c.state.dag P fuel _ _ v (λ k le. each k (omega arith)) strong
            (rw (later, new_vertex) at e)
      | inr early ↦
          subst (λ (x : Vertex). All P x.parents) (some_eq (rw (early, new_vertex) at e)) strong
    ]

pub new_vertex-IsLayered :
    (ext : External) (fuel : ℕ) (c : Consensus) (round : ℕ) (block : Block) (v : Vertex)
    → IsWellFormed c.state.dag
    → 0 < round
    → round < u64_mod
    → v.round ≡ round
    → new_vertex ext fuel c round block ≡ some v
    → IsLayered v
new_vertex-IsLayered ext fuel c round block v ok low high same e =
    new_vertex-All (λ p. p.1 < v.round) ext fuel c round block v ok low high
      (λ k lt. All-intro _ (values (bucket c.state.dag k)) (λ w m. omega arith)) e

-- The vertex that a node with a well-formed graph makes for a round from 1 on is let into the graph of every node that holds
-- what the first one holds and has reached the vertex's round: its parents are never missing there.
pub new_vertex-admitted :
    (ext : External) (fuel : ℕ) (c d : Consensus) (round : ℕ) (block : Block) (v : Vertex)
    → IsWellFormed c.state.dag
    → 0 < round
    → round < u64_mod
    → new_vertex ext fuel c round block ≡ some v
    → ((h r : ℕ) → IsHeld c.state.dag h r → IsHeld d.state.dag h r)
    → v.round ≤ d.state.current_round
    → admit d v ≡ set_dag d (insert_vertex d.state.dag v)
unfolding admit
new_vertex-admitted ext fuel c d round block v ok low high e held reached =
    let all =
      new_vertex-All (λ p. IsHeld d.state.dag p.0 p.1) ext fuel c round block v ok low high
        (λ k lt.
          All-intro _ (values (bucket c.state.dag k))
            (λ w m. held w.hash k (get_vertex-of_mem c.state.dag w k m)))
        e in
    let contains = (contains_vertices_iff d.state.dag v.parents).1 all in
    let in_time : leb v.round d.state.current_round ≡ true = ground arith in
    rw (contains, admit) (rw in_time refl)
