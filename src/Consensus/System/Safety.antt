-- ===== src/Consensus/System/Safety.antt =====
-- Two nodes of the system that commit waves (consensus/consensus.cpp, lines 105 to 134).
use mathlib.Core.List.Memᴰ
use dag_rider.Prelude.{
  ◌%◌, ◌-◌, ℕ, ◌+◌, ◌^◌, ◌≤◌, ◌<◌, ◌≡◌, ap, ◌∙◌, sym, subst, List, [], ◌∷◌, Memᴰ, true, some, arith,
  All-mem,
}
use dag_rider.Model.External.{External}
use dag_rider.Model.Vertex.{Vertex}
use dag_rider.Model.Vertex
use dag_rider.Model.Committee.{Committee, size, get_nodes_keys}
use dag_rider.Consensus.Dag.{u32_mod, bucket, is_linked_with_others_in_round}
use dag_rider.Consensus.Dag.Insertion.{bucket-IsRound}
use dag_rider.Consensus.Protocol.{
  Memory, leader_key, max_wave, wave_before, get_round_for_wave, get_wave_vertex_leader,
  get_leaders_to_commit,
}
use dag_rider.Consensus.Protocol.Waves.{get_round_for_wave_closed}
use dag_rider.Consensus.Protocol.Commit.{get_leaders_to_commit-Chain}
use dag_rider.Consensus.System.{Nodes, IsSent, given, sent, Reaches}
use dag_rider.Consensus.System.Steady.{given-IsGenesis, Reaches-IsSteady}
use dag_rider.Consensus.System.Consistent.{IsSent-unique, IsSent-HasNoRivals, Reaches-IsCausal}
use dag_rider.Consensus.System.Votes.{Votes, is_linked_with_others-Votes}
use dag_rider.Consensus.System.World.{IsWorld}
use dag_rider.Consensus.System.Committed.{get_wave_vertex_leader-mem, Chain-next}
use dag_rider.Consensus.Protocol.Leaders.{get_wave_vertex_leader-owner}
use dag_rider.Consensus.System.Backed.{Reaches-IsFixed, Reaches-IsBacked}

genesis-owner :
    (ext : External) (keys : List ℕ) (v : Vertex)
    → Memᴰ v (Vertex.genesis ext keys)
    → Memᴰ v.owner keys
unfolding Vertex.genesis Vertex.create
genesis-owner ext [] v m = absurd (Memᴰ.not-nil m)
genesis-owner ext (k ∷ keys) v (Memᴰ.head e) = Memᴰ.head (ap (λ (x : Vertex). x.owner) e)
genesis-owner ext (k ∷ keys) v (Memᴰ.tail m) = Memᴰ.tail (genesis-owner ext keys v m)

module _ (ext : External) (committee : Committee) (key : ℕ → ℕ)
    (apart : (i j : ℕ) → key i ≡ key j → i ≡ j) (pos : 0 < size committee)
    (few : size committee < 2 ^ 31) (nodes : Nodes) (n : ℕ) (memory : ℕ → Memory)
    (reached : Reaches ext committee memory key nodes n) (room : n + 1 < u32_mod)
    (members : (i : ℕ) (v : Vertex)
      → Memᴰ v (nodes i).vertex_to_broadcast
      → Memᴰ (key i) (get_nodes_keys committee))
    (hashed : (v w : Vertex)
      → IsSent ext committee nodes v
      → IsSent ext committee nodes w
      → v.hash ≡ w.hash
      → v ≡ w) where
  IsSent-IsWorld : IsWorld (IsSent ext committee nodes) committee
  IsSent-IsWorld =
      let steady = Reaches-IsSteady ext committee key nodes n reached room in
      let calm = IsSent-HasNoRivals ext committee key apart nodes n steady in
      record {
        one = λ v w a b owner round.
            sym (IsSent-unique ext committee key apart nodes n steady v w a b owner round);
        hashed = hashed;
        member = λ v s. elim s [
          | given m ↦ genesis-owner ext (get_nodes_keys committee) v m
          | sent i m ↦
              let own = All-mem _ (nodes i).vertex_to_broadcast (steady i).honest.own m in
              subst (λ o. Memᴰ o (get_nodes_keys committee)) (sym own.0) (members i v m)
        ];
        backed = λ v s low. elim s [
          | given m ↦ absurd (omega (arith, (given-IsGenesis ext committee v m).1))
          | sent i m ↦
              All-mem _ (nodes i).vertex_to_broadcast
                (Reaches-IsBacked ext committee key apart (IsSent ext committee nodes) calm nodes n
                  reached room few (λ x y. y) i)
                m
        ];
      }

  -- In a system of nodes with keys of their own, of which only members of the committee (fewer than
  -- 2 ^ 31, and not none) have sent vertices, no two of them with one hash, in fewer than 2 ^ 32 - 1 turns,
  -- whatever the network delivers and whatever freed vertices are read as: when a node can commit a wave,
  -- from 1 to 2 ^ 30, that is, when its graph has the wave's leader and a quorum in the wave's last round
  -- that is linked to it, and any node finds the leader of a later wave up to 2 ^ 30, then what
  -- `getLeadersToCommit` returns to the latter node, after that leader, goes on with the leader of the
  -- former wave or of a wave between the two. If it is the former wave, it is the very leader that the
  -- former node has.
  pub Reaches-commits :
      (i j wave later fuel fuel' : ℕ) (p q : Vertex) (leaders : List Vertex)
      → 0 < wave
      → wave < later
      → later ≤ 2 ^ 30
      → get_wave_vertex_leader (nodes i) wave ≡ some (some p)
      → is_linked_with_others_in_round fuel (nodes i).state.dag p (get_round_for_wave wave max_wave)
        ≡ some true
      → get_wave_vertex_leader (nodes j) later ≡ some (some q)
      → get_leaders_to_commit fuel' (nodes j) (wave_before later) q ≡ some leaders
      → (between : ℕ) × (x : Vertex) × (rest : List Vertex) × (leaders ≡ q ∷ x ∷ rest)
        × (wave ≤ between)
        × (between < later)
        × (get_wave_vertex_leader (nodes j) between ≡ some (some x))
        × (between ≡ wave → x ≡ p)
  unfolding wave_before
  Reaches-commits i j wave later fuel fuel' p q leaders low above high leads linked also_leads
        commits =
      let steady = Reaches-IsSteady ext committee key nodes n reached room in
      let calm = IsSent-HasNoRivals ext committee key apart nodes n steady in
      let causal =
        Reaches-IsCausal ext committee key apart (IsSent ext committee nodes) calm nodes n reached
          room (λ v s. s) in
      let fixed = Reaches-IsFixed ext committee key nodes n reached few in
      let last_round = get_round_for_wave_closed wave max_wave low (omega arith) (omega arith) in
      let (weight, enough, votes) =
        is_linked_with_others-Votes (nodes i).state.dag p fuel (get_round_for_wave wave max_wave)
          linked
          (bucket-IsRound (nodes i).state.dag (get_round_for_wave wave max_wave)
            (causal i).formed).0 in
      let (elected, first) =
        get_wave_vertex_leader-owner (nodes i) wave p (causal i).formed leads in
      let known = ((causal i).each _ p (get_wave_vertex_leader-mem (nodes i) wave p leads)).0 in
      let (ps, same, chain) =
        get_leaders_to_commit-Chain fuel' (nodes j) (wave_before later) q leaders commits in
      let before : (later + u32_mod - 1) % u32_mod ≡ later - 1 = omega arith in
      let (between, x, rest, split, at_least, at_most, found, only) =
        Chain-next (IsSent ext committee nodes) calm committee IsSent-IsWorld pos (omega arith)
          (nodes i).state.dag p wave weight low (omega arith) (causal i) known first
          (subst (λ k. k ≤ weight) (fixed i).1 enough)
          (subst (λ r. Votes (nodes i).state.dag p (bucket (nodes i).state.dag r) weight) last_round
            votes)
          (nodes j) (causal j)
          (subst (λ c. leader_key c wave ≡ some p.owner) (sym (fixed j).0)
            (subst (λ c. leader_key c wave ≡ some p.owner) (fixed i).0 elected))
          (wave_before later) later q ps chain above high also_leads (omega arith) (omega arith) in
      (between, x, rest, same ∙ ap (λ xs. q ∷ xs) split, at_least, at_most, found, only)
