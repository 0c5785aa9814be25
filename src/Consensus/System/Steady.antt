-- ===== src/Consensus/System/Steady.antt =====
-- What holds of each node of the system after any number of turns.
use dag_rider.Prelude.{
  ℕ, suc, ◌+◌, ◌≤◌, ◌<◌, ◌≡◌, refl, sym, subst, List, [], ◌∷◌, Memᴰ, some, arith, All, All-append,
  All-mem, All-map, ◌==◌, Bool-cases, inl, inr, ==→eq,
}
use dag_rider.Model.External.{External}
use dag_rider.Model.Block.{Block}
use dag_rider.Model.Block
use dag_rider.Model.Vertex.{Vertex, u64_mod}
use dag_rider.Model.Vertex
use dag_rider.Model.Committee.{Committee, get_nodes_keys}
use dag_rider.Consensus.State
use dag_rider.Consensus.Dag.{u32_mod}
use dag_rider.Consensus.Dag.Turns.{IsLayered}
use dag_rider.Consensus.Dag.Insertion.{IsWellFormed, create-IsWellFormed}
use dag_rider.Consensus.Protocol.{Consensus, Memory, create, local_consensus}
use dag_rider.Consensus.Protocol.Loop.{turn}
use dag_rider.Consensus.Protocol.Turned.{Turned, waits, proposes, turn-Turned}
use dag_rider.Consensus.Protocol.Honest.{IsHonest, create-IsHonest, Turned-IsHonest}
use dag_rider.Consensus.Protocol.Accepted.{new_vertex-IsLayered}
use dag_rider.Consensus.Protocol.Totality.Turn.{turn_keeps}
use dag_rider.Consensus.System.{Nodes, IsSent, given, sent, Reaches, start, go}

-- A node of this key, after at most so many turns of the system.
pub record IsSteady (key n : ℕ) (c : Consensus) : Type 0 where
  pub honest : IsHonest key c
  pub formed : IsWellFormed c.state.dag
  pub layered : All IsLayered c.vertex_to_broadcast
  pub near : c.state.current_round ≤ n + 1

Turned-IsLayered :
    (ext : External) (c e : Consensus) (blocks : List Block)
    → Turned ext c blocks e
    → IsWellFormed e.state.dag
    → 1 ≤ e.state.current_round
    → e.state.current_round < u64_mod
    → All IsLayered c.vertex_to_broadcast
    → All IsLayered e.vertex_to_broadcast
Turned-IsLayered ext c e blocks (waits _ _ same _) ok low high h =
    subst (All IsLayered) (sym same) h
Turned-IsLayered ext c e blocks (proposes v fuel m _ _ more _ _ of_round graph made) ok low high h =
    subst (All IsLayered) (sym more) (
      All-append IsLayered c.vertex_to_broadcast (v ∷ []) h (
        new_vertex-IsLayered ext fuel m e.state.current_round v.block v
            (subst IsWellFormed (sym graph) ok) (omega arith) high of_round made,
        tt,
      ))

turn-IsSteady :
    (ext : External) (key n fuel : ℕ) (c d : Consensus) (buffer : List Vertex) (blocks : List Block)
    → turn ext fuel c buffer blocks ≡ some d
    → All IsLayered buffer
    → n + 2 < u32_mod
    → IsSteady key n c
    → IsSteady key (suc n) d
turn-IsSteady ext key n fuel c d buffer blocks e fine room s =
    let turned = turn-Turned ext fuel c d buffer blocks e in
    let (honest, near) =
      Turned-IsHonest ext key c d blocks turned (omega (arith, s.near)) s.honest in
    let kept = turn_keeps ext c buffer blocks s.formed fine fuel d e in
    record {
      honest = honest;
      formed = kept.0;
      layered =
          Turned-IsLayered ext c d blocks turned kept.0 honest.begun (omega (arith, s.near))
            s.layered;
      near = omega (arith, s.near);
    }

module _ (ext : External) (committee : Committee) where
  -- The hash of a genesis vertex is that of its owner's.
  abbrev pub IsGenesis : Vertex → Type 0
  IsGenesis v =
      (v ≡ Vertex.create ext v.owner 1 Block.default []) × (v.round ≡ 1) × (v.parents ≡ [])

  genesis-IsGenesis : (keys : List ℕ) → All IsGenesis (Vertex.genesis ext keys)
  unfolding Vertex.genesis Vertex.create
  genesis-IsGenesis [] = tt
  genesis-IsGenesis (k ∷ keys) = ((refl, refl, refl), genesis-IsGenesis keys)

  pub given-IsGenesis :
      (v : Vertex) → Memᴰ v (Vertex.genesis ext (get_nodes_keys committee)) → IsGenesis v
  given-IsGenesis v m = All-mem IsGenesis _ (genesis-IsGenesis (get_nodes_keys committee)) m

  local_consensus-IsSteady :
      (memory : Memory) (key : ℕ) → IsSteady key 0 (local_consensus ext memory key committee)
  unfolding local_consensus create State.create
  local_consensus-IsSteady memory key = record {
    honest = create-IsHonest memory key committee (Vertex.genesis ext (get_nodes_keys committee));
    formed = create-IsWellFormed (Vertex.genesis ext (get_nodes_keys committee)) _ (
        All-map _ _ _
          (λ v (_, round, none). (round, subst (All (λ (e : ℕ × ℕ). e.1 < v.round)) (sym none) tt))
          (genesis-IsGenesis (get_nodes_keys committee)));
    layered = tt;
    near = omega arith;
  }

  pub IsSent-IsLayered :
      (key : ℕ → ℕ) (nodes : Nodes) (n : ℕ) (v : Vertex)
      → ((i : ℕ) → IsSteady (key i) n (nodes i))
      → IsSent ext committee nodes v
      → IsLayered v
  IsSent-IsLayered key nodes n v steady (given m) =
      subst (All (λ (e : ℕ × ℕ). e.1 < v.round)) (sym (given-IsGenesis v m).2) tt
  IsSent-IsLayered key nodes n v steady (sent i m) = All-mem IsLayered _ (steady i).layered m

  IsSteady-later : (key n : ℕ) (c : Consensus) → IsSteady key n c → IsSteady key (suc n) c
  IsSteady-later key n c s = record {
    honest = s.honest;
    formed = s.formed;
    layered = s.layered;
    near = omega (arith, s.near);
  }

  -- Each node is steady after any number of turns.
  pub Reaches-IsSteady :
      {memory : ℕ → Memory} (key : ℕ → ℕ) (nodes : Nodes) (n : ℕ)
      → Reaches ext committee memory key nodes n
      → n + 1 < u32_mod
      → (i : ℕ) → IsSteady (key i) n (nodes i)
  Reaches-IsSteady key nodes n start room i = local_consensus-IsSteady _ (key i)
  Reaches-IsSteady key nodes n
        (go {nodes = before} {n = m} i fuel buffer blocks d earlier all_sent e) room j =
      let steady = Reaches-IsSteady key before m earlier (omega arith) in
      let fine =
        All-map _ IsLayered buffer (λ v s. IsSent-IsLayered key before m v steady s) all_sent in
      elim (Bool-cases (i == j)) [
        | inl same ↦ rw same (
            subst (λ k. IsSteady (key k) (suc m) d) (==→eq i j same)
              (turn-IsSteady ext (key i) m fuel (before i) d buffer blocks e fine (omega arith)
                (steady i)))
        | inr other ↦ rw other (IsSteady-later (key j) m (before j) (steady j))
      ]
