-- ===== src/Consensus/System/Backed.antt =====
-- Every vertex that a node of the system sends names a quorum of the round before
-- (consensus/consensus.cpp, lines 62 to 91).
use dag_rider.Prelude.{
  ℕ, ◌+◌, ◌-◌, ◌^◌, ◌≤◌, ◌<◌, ◌≡◌, refl, ap, ◌∙◌, sym, subst, List, [], ◌∷◌, ◌++◌, Memᴰ, true, some,
  arith, length, All, All-append, All-mem, All-map, All-intro, Bool-cases, ◌==◌, inl, inr,
}
use dag_rider.Model.External.{External}
use dag_rider.Model.Block.{Block}
use dag_rider.Model.Vertex.{Vertex, u64_mod}
use dag_rider.Model.Committee.{Committee, size, quorum_threshold}
use dag_rider.Consensus.Dag.{Dag, u32_mod, bucket, is_quorum_reached_for_round}
use dag_rider.Consensus.Dag.Turns.{IsLayered}
use dag_rider.Consensus.Dag.Insertion.{IsPlaced, bucket-IsRound}
use dag_rider.Consensus.Dag.Closure.{mem-values}
use dag_rider.Consensus.Quorum.{min_quorum-quorum_threshold, reached}
use dag_rider.Consensus.Protocol.{Consensus, Memory, create, local_consensus, new_vertex}
use dag_rider.Consensus.Protocol.Loop.{turn, admit_all, is_ready}
use dag_rider.Consensus.Protocol.Proposal.{new_vertex-covers}
use dag_rider.Consensus.Protocol.Totality.Turn.{turn_keeps, admit_all-same}
use dag_rider.Consensus.Protocol.History.{HasNoRivals, IsCausal, turn-IsCausal}
use dag_rider.Consensus.Protocol.Turned.{waits, proposes, turn-Turned}
use dag_rider.Consensus.Protocol.Kept.{turn-IsKept}
use dag_rider.Consensus.System.{Nodes, IsSent, Reaches, start, go}
use dag_rider.Consensus.System.Steady.{IsSent-IsLayered, Reaches-IsSteady}
use dag_rider.Consensus.System.Consistent.{IsSent-put, Reaches-IsCausal}
use dag_rider.Consensus.System.World.{IsBacked}

module _ (U : Vertex → Type 0) (calm : HasNoRivals U) (ext : External) where
  -- The vertex that a node makes with a quorum in the round before.
  new_vertex-IsBacked :
      (fuel : ℕ) (m : Consensus) (round : ℕ) (block : Block) (v : Vertex)
      → IsCausal U calm m.state.dag
      → 2 ≤ round
      → round < u64_mod
      → new_vertex ext fuel m round block ≡ some v
      → m.state.dag.min_quorum ≤ length (bucket m.state.dag (round - 1))
      → IsBacked U m.state.dag.min_quorum v
  new_vertex-IsBacked fuel m round block v causal low high made enough =
      let (_, of_round, _, parents, _) =
        new_vertex-covers ext fuel m round block v causal.formed low high made in
      let (keyed, placed) = bucket-IsRound m.state.dag (round - 1) causal.formed in
      record {
        round = bucket m.state.dag (round - 1);
        enough = enough;
        keyed = keyed;
        each = All-intro _ (bucket m.state.dag (round - 1)) (λ e here.
            let at = All-mem (IsPlaced (round - 1)) (bucket m.state.dag (round - 1)) placed here in
            let there = mem-values e.0 (bucket m.state.dag (round - 1)) e.1 here in
            (
              at.1,
              omega (arith, at.0, of_round),
              (causal.each (round - 1) e.1 there).0,
              subst (λ n. Memᴰ (e.1.hash, n) v.parents) (sym at.0) (parents e.1 there),
            ));
      }

  ready-quorum :
      (c : Consensus)
      → is_ready c ≡ true
      → is_quorum_reached_for_round c.state.dag c.state.current_round ≡ true
  unfolding is_ready
  ready-quorum c h = ground arith

  -- A turn that goes on by a round had a quorum in the round.
  turn-quorum :
      (fuel : ℕ) (c d : Consensus) (buffer : List Vertex) (blocks : List Block)
      → turn ext fuel c buffer blocks ≡ some d
      → All (λ (v : Vertex). U v × IsLayered v) buffer
      → IsCausal U calm c.state.dag
      → c.state.current_round + 1 < u32_mod
      → d.state.current_round ≡ c.state.current_round + 1
      → d.state.dag.min_quorum ≤ length (bucket d.state.dag c.state.current_round)
  turn-quorum fuel c d buffer blocks e fine causal room next_round =
      let c' : Consensus = record c { blocks_to_propose = c.blocks_to_propose ++ blocks } in
      let (_, graph, outcome) =
        turn_keeps ext c buffer blocks causal.formed (All-map _ IsLayered buffer (λ v x. x.1) fine)
          fuel d e in
      let round = (admit_all-same c' buffer).1 in
      elim outcome [
        | inl (_, same) ↦ absurd (omega (arith, same))
        | inr (ready, _) ↦ reached d.state.dag c.state.current_round (
            subst (λ g. is_quorum_reached_for_round g c.state.current_round ≡ true) (sym graph)
              (subst (λ r. is_quorum_reached_for_round (admit_all c' buffer).state.dag r ≡ true)
                round (ready-quorum (admit_all c' buffer) ready)))
      ]

  turn-IsBacked :
      (fuel quorum : ℕ) (c d : Consensus) (buffer : List Vertex) (blocks : List Block)
      → turn ext fuel c buffer blocks ≡ some d
      → All (λ (v : Vertex). U v × IsLayered v) buffer
      → IsCausal U calm c.state.dag
      → 1 ≤ c.state.current_round
      → c.state.current_round + 1 < u32_mod
      → d.state.dag.min_quorum ≡ quorum
      → All (IsBacked U quorum) c.vertex_to_broadcast
      → All (IsBacked U quorum) d.vertex_to_broadcast
  turn-IsBacked fuel quorum c d buffer blocks e fine causal begun room same h =
      elim (turn-Turned ext fuel c d buffer blocks e) [
        | waits _ _ still _ ↦ subst (All (IsBacked U quorum)) (sym still) h
        | proposes v fuel' m _ round more _ _ of_round graph made ↦
            let next_round : d.state.current_round ≡ c.state.current_round + 1 = omega arith in
            let after = turn-IsCausal U calm ext fuel c d buffer blocks e fine causal in
            let enough = turn-quorum fuel c d buffer blocks e fine causal room next_round in
            let backed =
              new_vertex-IsBacked fuel' m d.state.current_round v.block v
                (subst (IsCausal U calm) (sym graph) after) (omega arith) (omega arith) made
                (subst (λ g. g.min_quorum ≤ length (bucket g (d.state.current_round - 1)))
                  (sym graph)
                  (subst (λ r. d.state.dag.min_quorum ≤ length (bucket d.state.dag r)) (omega arith)
                    enough)) in
            subst (All (IsBacked U quorum)) (sym more) (
              All-append (IsBacked U quorum) c.vertex_to_broadcast (v ∷ []) h (
                subst (λ n. IsBacked U n v) (ap (λ (g : Dag). g.min_quorum) graph ∙ same) backed,
                tt,
              ))
      ]

module _ (ext : External) (committee : Committee) (key : ℕ → ℕ) where
  -- Each node keeps the committee, and the quorum that the committee names.
  pub Reaches-IsFixed :
      {memory : ℕ → Memory} (nodes : Nodes) (n : ℕ)
      → Reaches ext committee memory key nodes n
      → size committee < 2 ^ 31
      → (i : ℕ)
      → ((nodes i).committee ≡ committee)
        × ((nodes i).state.dag.min_quorum ≡ quorum_threshold committee)
  unfolding local_consensus create
  Reaches-IsFixed nodes n start few i = (refl, min_quorum-quorum_threshold ext committee few)
  Reaches-IsFixed nodes n (go {nodes = before} {n = m} i fuel buffer blocks d earlier _ e) few j =
      let kept = turn-IsKept ext fuel (before i) d buffer blocks e in
      let (old, quorum) = Reaches-IsFixed before m earlier few i in
      elim (Bool-cases (i == j)) [
        | inl same ↦ rw same (kept.committee ∙ old, kept.quorum ∙ quorum)
        | inr other ↦ rw other (Reaches-IsFixed before m earlier few j)
      ]

module _ (ext : External) (committee : Committee) (key : ℕ → ℕ)
    (apart : (i j : ℕ) → key i ≡ key j → i ≡ j) (U : Vertex → Type 0) (calm : HasNoRivals U) where
  -- Every vertex that a node has sent is backed by a quorum.
  pub Reaches-IsBacked :
      {memory : ℕ → Memory} (nodes : Nodes) (n : ℕ)
      → Reaches ext committee memory key nodes n
      → n + 1 < u32_mod
      → size committee < 2 ^ 31
      → ((v : Vertex) → IsSent ext committee nodes v → U v)
      → (i : ℕ) → All (IsBacked U (quorum_threshold committee)) (nodes i).vertex_to_broadcast
  unfolding local_consensus create
  Reaches-IsBacked nodes n start room few known i = tt
  Reaches-IsBacked nodes n (go {nodes = before} {n = m} i fuel buffer blocks d earlier all_sent e)
        room few known j =
      let steady = Reaches-IsSteady ext committee key before m earlier (omega arith) in
      let later = λ (v : Vertex) (s : IsSent ext committee before v). known v (
        IsSent-put ext committee key apart before i d blocks v
          (turn-Turned ext fuel (before i) d buffer blocks e) s) in
      let fine =
        All-map _ (λ (v : Vertex). U v × IsLayered v) buffer
          (λ v s. (later v s, IsSent-IsLayered ext committee key before m v steady s)) all_sent in
      let causal =
        Reaches-IsCausal ext committee key apart U calm before m earlier (omega arith) later i in
      let fixed = Reaches-IsFixed ext committee key before m earlier few i in
      let kept = turn-IsKept ext fuel (before i) d buffer blocks e in
      let old = Reaches-IsBacked before m earlier (omega arith) few later in
      elim (Bool-cases (i == j)) [
        | inl same ↦ rw same (
            turn-IsBacked U calm ext fuel (quorum_threshold committee) (before i) d buffer blocks e
              fine causal (steady i).honest.begun (omega (arith, (steady i).near))
              (kept.quorum ∙ fixed.1) (old i))
        | inr other ↦ rw other (old j)
      ]
