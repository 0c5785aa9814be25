-- ===== src/Consensus/System/Consistent.antt =====
-- What the graphs of the nodes of the system have in common.
use mathlib.Core.List.Memᴰ
use dag_rider.Prelude.{
  ℕ, ◌+◌, ◌<◌, ◌≡◌, ap, ◌∙◌, sym, subst, List, [], ◌∷◌, Memᴰ, arith, All-mem, All-map, All-intro,
  ◌==◌, Bool-cases, inl, inr, ==→eq,
}
use dag_rider.Containers.{values}
use dag_rider.Model.External.{External}
use dag_rider.Model.Block.{Block}
use dag_rider.Model.Block
use dag_rider.Model.Vertex.{Vertex}
use dag_rider.Model.Vertex
use dag_rider.Model.Committee.{Committee, get_nodes_keys}
use dag_rider.Consensus.State
use dag_rider.Consensus.Dag.{u32_mod, bucket}
use dag_rider.Consensus.Dag.Turns.{IsLayered}
use dag_rider.Consensus.Dag.Links.{Ancestor}
use dag_rider.Consensus.Dag.Lookup.{IsHeld}
use dag_rider.Consensus.Protocol.{Consensus, Memory, create, local_consensus}
use dag_rider.Consensus.Protocol.Turned.{Turned, waits, proposes, turn-Turned}
use dag_rider.Consensus.Protocol.Honest.{AreRising}
use dag_rider.Consensus.Protocol.History.{
  HasNoRivals, IsCausal, turn-IsCausal, roots-IsCausal, IsCausal-history,
}
use dag_rider.Consensus.System.{Nodes, put, IsSent, given, sent, Reaches, start, go}
use dag_rider.Consensus.System.Steady.{
  IsSteady, given-IsGenesis, IsSent-IsLayered, Reaches-IsSteady,
}

AreRising-unique :
    (vs : List Vertex) (v w : Vertex)
    → AreRising vs
    → Memᴰ v vs
    → Memᴰ w vs
    → v.round ≡ w.round
    → v ≡ w
AreRising-unique [] v w h m n e = absurd (Memᴰ.not-nil m)
AreRising-unique (x ∷ vs) v w h m n e = elim (Memᴰ.cases_cons m) [
  | inl first ↦ elim (Memᴰ.cases_cons n) [
    | inl also ↦ first ∙ sym also
    | inr later ↦
        let above = All-mem (λ (u : Vertex). x.round < u.round) vs h.0 later in
        absurd (omega (arith, above, ap (λ (u : Vertex). u.round) first))
  ]
  | inr later ↦ elim (Memᴰ.cases_cons n) [
    | inl first ↦
        let above = All-mem (λ (u : Vertex). x.round < u.round) vs h.0 later in
        absurd (omega (arith, above, ap (λ (u : Vertex). u.round) first))
    | inr also ↦ AreRising-unique vs v w h.1 later also e
  ]
]

module _ (ext : External) (committee : Committee) (key : ℕ → ℕ)
    (apart : (i j : ℕ) → key i ≡ key j → i ≡ j) where
  -- No owner has two vertices in a round.
  pub IsSent-unique :
      (nodes : Nodes) (n : ℕ)
      → ((i : ℕ) → IsSteady (key i) n (nodes i))
      → (v w : Vertex) → IsSent ext committee nodes v
      → IsSent ext committee nodes w
      → v.owner ≡ w.owner
      → v.round ≡ w.round
      → w ≡ v
  IsSent-unique nodes n steady v w (given a) (given b) owner round =
      let g = (given-IsGenesis ext committee v a).0 in
      let h = (given-IsGenesis ext committee w b).0 in
      h ∙ ap (λ k. Vertex.create ext k 1 Block.default []) (sym owner) ∙ sym g
  IsSent-unique nodes n steady v w (given a) (sent j b) owner round =
      let own = All-mem _ (nodes j).vertex_to_broadcast (steady j).honest.own b in
      absurd (omega (arith, own.1, (given-IsGenesis ext committee v a).1))
  IsSent-unique nodes n steady v w (sent i a) (given b) owner round =
      let own = All-mem _ (nodes i).vertex_to_broadcast (steady i).honest.own a in
      absurd (omega (arith, own.1, (given-IsGenesis ext committee w b).1))
  IsSent-unique nodes n steady v w (sent i a) (sent j b) owner round =
      let mine = All-mem _ (nodes i).vertex_to_broadcast (steady i).honest.own a in
      let yours = All-mem _ (nodes j).vertex_to_broadcast (steady j).honest.own b in
      let same : j ≡ i = apart j i (sym yours.0 ∙ sym owner ∙ mine.0) in
      AreRising-unique (nodes i).vertex_to_broadcast w v (steady i).honest.rising
        (subst (λ k. Memᴰ w (nodes k).vertex_to_broadcast) same b) a (sym round)

  pub IsSent-HasNoRivals :
      (nodes : Nodes) (n : ℕ)
      → ((i : ℕ) → IsSteady (key i) n (nodes i))
      → HasNoRivals (IsSent ext committee nodes)
  IsSent-HasNoRivals nodes n steady v w a b owner round =
      ap (λ (x : Vertex). x.hash) (IsSent-unique nodes n steady v w a b owner round)

  Turned-sent :
      (c d : Consensus) (blocks : List Block) (v : Vertex)
      → Turned ext c blocks d
      → Memᴰ v c.vertex_to_broadcast
      → Memᴰ v d.vertex_to_broadcast
  Turned-sent c d blocks v (waits _ _ same _) m = subst (Memᴰ v) (sym same) m
  Turned-sent c d blocks v (proposes u _ _ _ _ more _ _ _ _ _) m =
      subst (Memᴰ v) (sym more) (Memᴰ.append_left (u ∷ []) m)

  -- What was sent stays sent.
  pub IsSent-put :
      (nodes : Nodes) (i : ℕ) (d : Consensus) (blocks : List Block) (v : Vertex)
      → Turned ext (nodes i) blocks d
      → IsSent ext committee nodes v
      → IsSent ext committee (put i d nodes) v
  IsSent-put nodes i d blocks v turned (given m) = given m
  IsSent-put nodes i d blocks v turned (sent j m) = elim (Bool-cases (i == j)) [
    | inl same ↦ sent j (
        rw same (
          Turned-sent (nodes i) d blocks v turned
            (subst (λ k. Memᴰ v (nodes k).vertex_to_broadcast) (sym (==→eq i j same)) m)))
    | inr other ↦ sent j (rw other m)
  ]

  module _ (U : Vertex → Type 0) (calm : HasNoRivals U) where
    pub Reaches-IsCausal :
        {memory : ℕ → Memory} (nodes : Nodes) (n : ℕ)
        → Reaches ext committee memory key nodes n
        → n + 1 < u32_mod
        → ((v : Vertex) → IsSent ext committee nodes v → U v)
        → (i : ℕ) → IsCausal U calm (nodes i).state.dag
    unfolding local_consensus create State.create
    Reaches-IsCausal nodes n start room known i =
        roots-IsCausal U calm (Vertex.genesis ext (get_nodes_keys committee)) _ (
          All-intro _ _ (λ v m.
            let (_, round, none) = given-IsGenesis ext committee v m in
            (known v (given m), round, none)))
    Reaches-IsCausal nodes n (go {nodes = before} {n = m} i fuel buffer blocks d earlier all_sent e)
          room known j =
        let steady = Reaches-IsSteady ext committee key before m earlier (omega arith) in
        let later = λ (v : Vertex) (s : IsSent ext committee before v).
          known v (
            IsSent-put before i d blocks v (turn-Turned ext fuel (before i) d buffer blocks e) s) in
        let causal = Reaches-IsCausal before m earlier (omega arith) later in
        let fine =
          All-map _ (λ (v : Vertex). U v × IsLayered v) buffer
            (λ v s. (later v s, IsSent-IsLayered ext committee key before m v steady s)) all_sent in
        elim (Bool-cases (i == j)) [
          | inl same ↦
              rw same (turn-IsCausal U calm ext fuel (before i) d buffer blocks e fine (causal i))
          | inr other ↦ rw other (causal j)
        ]

  -- In a system of nodes with keys of their own, whatever the network delivers of what was broadcast, in
  -- fewer than 2 ^ 32 - 1 turns: every node's graph has the whole causal history of each of its vertices.
  pub Reaches-holds_history :
      {memory : ℕ → Memory} (nodes : Nodes) (n i r : ℕ) (v : Vertex) (hash round : ℕ)
      → Reaches ext committee memory key nodes n
      → n + 1 < u32_mod
      → Memᴰ v (values (bucket (nodes i).state.dag r))
      → Ancestor (nodes i).state.dag hash round v
      → IsHeld (nodes i).state.dag hash round
  Reaches-holds_history nodes n i r v hash round reached room m history =
      let calm =
        IsSent-HasNoRivals nodes n (Reaches-IsSteady ext committee key nodes n reached room) in
      let k =
        Reaches-IsCausal (IsSent ext committee nodes) calm nodes n reached room (λ v s. s) i in
      IsCausal-history (IsSent ext committee nodes) calm (nodes i).state.dag k (k.closed.held r v m)
        history

  -- In a system of nodes with keys of their own, whatever the network delivers of what was broadcast, in
  -- fewer than 2 ^ 32 - 1 turns: the vertices that two nodes hold of one owner in one round are the same.
  pub Reaches-same_vertex :
      {memory : ℕ → Memory} (nodes : Nodes) (n i j r : ℕ) (v w : Vertex)
      → Reaches ext committee memory key nodes n
      → n + 1 < u32_mod
      → Memᴰ v (values (bucket (nodes i).state.dag r))
      → Memᴰ w (values (bucket (nodes j).state.dag r))
      → v.owner ≡ w.owner
      → w ≡ v
  Reaches-same_vertex nodes n i j r v w reached room a b owner =
      let steady = Reaches-IsSteady ext committee key nodes n reached room in
      let calm = IsSent-HasNoRivals nodes n steady in
      let causal =
        Reaches-IsCausal (IsSent ext committee nodes) calm nodes n reached room (λ v s. s) in
      let (one, at_r) = (causal i).each r v a in
      let (other, also_at_r) = (causal j).each r w b in
      IsSent-unique nodes n steady v w one other owner (at_r ∙ sym also_at_r)
