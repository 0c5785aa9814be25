-- ===== src/Consensus/Protocol/Totality/Turn.antt =====
-- One turn of the consensus loop as a whole (consensus/consensus.cpp, lines 55 to 91).
use dag_rider.Prelude.{
  ℕ, ◌+◌, ◌-◌, ◌/◌, ◌%◌, ◌<◌, ◌≡◌, refl, inl, inr, ◌⊎◌, ⊎_elim, List, [], ◌∷◌, ◌++◌, true, false,
  some, arith, ltb, Bool-cases, Option-cases, Settles, Settles-some, Settles-bind, Settles-Bool,
  Settles-Option, All, All-mem, All-intro, Memᴰ, subst, ap, sym, bind-eq-some, ltb→lt, ◌∙◌,
}
use dag_rider.Containers.{find, values}
use dag_rider.Containers.Ordered
use dag_rider.Model.External.{External}
use dag_rider.Model.Block.{Block}
use dag_rider.Model.Vertex.{Vertex, u64_mod}
use dag_rider.Model.Vertex
use dag_rider.Model.Committee.{size}
use dag_rider.Consensus.State.{State}
use dag_rider.Consensus.Dag.{Dag, vertices_of, get_vertices, collect_hashes, u32_mod}
use dag_rider.Consensus.Dag.Turns.{IsLayered}
use dag_rider.Consensus.Dag.Insertion.{IsWellFormed, values-IsPlaced, IsWellFormed-IsLayeredDag}
use dag_rider.Consensus.Protocol.{
  Consensus, max_wave, get_ordered_vertices, set_weak_edges, new_vertex, create_new_vertex,
  pop_back, is_last_round_in_wave,
}
use dag_rider.Consensus.Protocol.Loop.{
  admit, admit_all, output_wave, next_round, is_ready, advance, turn,
}
use dag_rider.Consensus.Protocol.Totality.{weak_edges_loop-Settles}
use dag_rider.Consensus.Protocol.Totality.Steps.{
  admit_all-IsWellFormed, IsSound, get_ordered_vertices-Settles,
}

collect_hashes-round :
    (P : ℕ × ℕ → Type 0) (vs : List Vertex) (acc : List (ℕ × ℕ))
    → All (λ (v : Vertex). P (v.hash, v.round)) vs
    → All P acc
    → All P (collect_hashes vs acc)
unfolding collect_hashes
collect_hashes-round P [] acc h a = a
collect_hashes-round P (v ∷ vs) acc h a =
    collect_hashes-round P vs _ h.1 (Ordered.All-insert P v.hash v.round acc h.0 a)

-- The parents offered to a new vertex are of the round asked for.
get_vertices-round :
    (dag : Dag) (r : ℕ) → IsWellFormed dag → All (λ (e : ℕ × ℕ). e.1 ≡ r) (get_vertices dag r)
unfolding get_vertices
get_vertices-round dag r ok = elim (Option-cases (find r dag.graph)) [
  | inl e ↦ rw (e, get_vertices) tt
  | inr (vs, e) ↦
      rw (e, get_vertices)
        (collect_hashes-round (λ (x : ℕ × ℕ). x.1 ≡ r) (values vs) []
          (All-intro _ (values vs) (λ v m.
            (values-IsPlaced dag r v ok
              (subst (λ o. Memᴰ v (values (vertices_of o))) (sym e) m)).0))
          tt)
]

module _ (ext : External) (c : Consensus) (ok : IsWellFormed c.state.dag) where
  fresh-IsLayered :
      (round : ℕ) (block : Block)
      → 0 < round
      → round < u64_mod
      → IsLayered (
          Vertex.create ext c.node_id round block
            (get_vertices c.state.dag ((round + u64_mod - 1) % u64_mod)))
  unfolding Vertex.create
  fresh-IsLayered round block low high =
      let r = (round + u64_mod - 1) % u64_mod in
      let ps = get_vertices c.state.dag r in
      let at_r = get_vertices-round c.state.dag r ok in
      All-intro (λ (e : ℕ × ℕ). e.1 < round) ps
        (λ e m. omega (arith, All-mem (λ (x : ℕ × ℕ). x.1 ≡ r) ps at_r m))

  new_vertex-Settles :
      (round : ℕ) (block : Block)
      → 0 < round
      → round < u64_mod
      → Settles (λ fuel. new_vertex ext fuel c round block)
  unfolding new_vertex set_weak_edges Vertex.create
  new_vertex-Settles round block low high =
      let layered = fresh-IsLayered round block low high in
      elim (Bool-cases (ltb 2 round)) [
        | inl later ↦
            let (s, _, _) =
              weak_edges_loop-Settles c.state.dag (IsWellFormed-IsLayeredDag c.state.dag ok) round
                ((round + u64_mod - 3) % u64_mod) _ refl (omega (arith, ltb→lt 2 round later))
                layered in
            rw (later, new_vertex) s
        | inr early ↦ rw (early, new_vertex) (Settles-some _)
      ]

  pub create_new_vertex-Settles :
      (round : ℕ)
      → 0 < round
      → round < u64_mod
      → Settles (λ fuel. create_new_vertex ext fuel c round)
  unfolding create_new_vertex
  create_new_vertex-Settles round low high =
      Settles-Option (pop_back c.blocks_to_propose) _ _ (Settles-some c) (λ (rest, block) there.
        Settles-bind _ _ (new_vertex-Settles round block low high) (Settles-some _))

-- Ordering leaves the node's state alone, but for the number of the decided wave.
get_ordered_vertices-state :
    (fuel : ℕ) (c : Consensus) (wave : ℕ) (r : Consensus × List Vertex)
    → get_ordered_vertices fuel c wave ≡ some r
    → (r.0.state ≡ c.state) × (r.0.blocks_to_propose ≡ c.blocks_to_propose)
unfolding get_ordered_vertices
get_ordered_vertices-state fuel c wave r e = ground arith

output_wave-state :
    (fuel : ℕ) (c out : Consensus)
    → output_wave fuel c ≡ some out
    → (out.state ≡ c.state) × (out.blocks_to_propose ≡ c.blocks_to_propose)
unfolding output_wave
output_wave-state fuel c out e = elim (Bool-cases (is_last_round_in_wave c.state.current_round)) [
  | inl at_end ↦
      let (r, ran, result) =
        bind-eq-some (get_ordered_vertices fuel c (c.state.current_round / max_wave)) _
          (rw (at_end, output_wave) at e) in
      ground (arith, get_ordered_vertices-state fuel c (c.state.current_round / max_wave) r ran)
  | inr inside ↦ ground arith
]

module _ (ext : External) (c : Consensus) (ok : IsWellFormed c.state.dag)
    (members : 0 < size c.committee) (sound : IsSound c.memory)
    (room : c.state.current_round + 1 < u32_mod) where
  output_wave-Settles : Settles (λ fuel. output_wave fuel c)
  unfolding output_wave
  output_wave-Settles =
      Settles-Bool (is_last_round_in_wave c.state.current_round) _ _
        (Settles-bind _ _
          (get_ordered_vertices-Settles c ok members sound (c.state.current_round / max_wave))
          (Settles-some _))
        (Settles-some c)

  advance-Settles : Settles (λ fuel. advance ext fuel c)
  unfolding advance next_round
  advance-Settles =
      let s = output_wave-Settles in
      let out = s.result in
      let same = output_wave-state s.bound c out (s.settled s.bound (omega arith)) in
      let round : out.state.current_round ≡ c.state.current_round =
        ap (λ (x : State). x.current_round) same.0 in
      Settles-Bool (is_ready c) _ _
        (Settles-bind _ _ s (
          create_new_vertex-Settles ext (next_round out)
            (subst (λ (x : State). IsWellFormed x.dag) (sym same.0) ok)
            ((out.state.current_round + 1) % u32_mod) (omega arith) (omega arith)))
        (Settles-some c)

-- Admitting vertices changes the graph alone.
pub admit_all-same :
    (c : Consensus) (buffer : List Vertex)
    → ((admit_all c buffer).committee ≡ c.committee)
      × ((admit_all c buffer).state.current_round ≡ c.state.current_round)
      × ((admit_all c buffer).blocks_to_propose ≡ c.blocks_to_propose)
      × ((admit_all c buffer).memory ≡ c.memory)
unfolding admit_all admit
admit_all-same c [] = (refl, refl, refl, refl)
admit_all-same c (v ∷ buffer) = ground (arith, admit_all-same (admit c v) buffer)

create_new_vertex-state :
    (ext : External) (fuel : ℕ) (c out : Consensus) (round : ℕ)
    → create_new_vertex ext fuel c round ≡ some out
    → out.state ≡ c.state
unfolding create_new_vertex
create_new_vertex-state ext fuel c out round e = ground arith

advance-state :
    (ext : External) (fuel : ℕ) (c out : Consensus)
    → advance ext fuel c ≡ some out
    → (out.state.dag ≡ c.state.dag)
      × ((is_ready c ≡ false) × (out.state.current_round ≡ c.state.current_round)
          ⊎ (is_ready c ≡ true) × (out.state.current_round ≡ (c.state.current_round + 1) % u32_mod))
unfolding advance next_round
advance-state ext fuel c out e = elim (Bool-cases (is_ready c)) [
  | inr stay ↦ ground arith
  | inl go ↦
      let (mid, ran, rest) = bind-eq-some (output_wave fuel c) _ (rw (go, advance) at e) in
      ground (
        arith,
        output_wave-state fuel c mid ran,
        create_new_vertex-state ext fuel (next_round mid) out (next_round mid).state.current_round,
      )
]

module _ (ext : External) (c : Consensus) (buffer : List Vertex) (blocks : List Block)
    (ok : IsWellFormed c.state.dag) (layered : All IsLayered buffer) where
  -- With a committee that is not empty, a graph that is well formed, vertices received that name
  -- parents of earlier rounds only, a round counter that does not wrap, and memory in which a freed
  -- vertex is read as one that names parents of earlier rounds only: what a turn of the consensus loop
  -- does after its first two loops returns. From some fuel on its result is there and is always the
  -- same for what the memory gives.
  pub turn-Settles :
      0 < size c.committee
      → IsSound c.memory
      → c.state.current_round + 1 < u32_mod
      → Settles (λ fuel. turn ext fuel c buffer blocks)
  unfolding turn
  turn-Settles members sound room =
      let c' = record c { blocks_to_propose = c.blocks_to_propose ++ blocks } in
      let same = admit_all-same c' buffer in
      advance-Settles ext (admit_all c' buffer) (admit_all-IsWellFormed c' buffer ok layered)
        (subst (λ m. 0 < size m) (sym same.0) members) (subst IsSound (sym same.3) sound)
        (omega (arith, same.1))

  -- With a graph that is well formed and vertices received that name parents of earlier rounds
  -- only, whatever a turn returns has a well-formed graph, made by admitting these vertices and
  -- nothing else; and the round goes up by one exactly if a block waits to be proposed and that
  -- graph has a quorum in the round, and stays otherwise.
  pub turn_keeps :
      (fuel : ℕ) (c' : Consensus)
      → turn ext fuel c buffer blocks ≡ some c'
      → let admitted =
          admit_all (record c { blocks_to_propose = c.blocks_to_propose ++ blocks }) buffer in
        IsWellFormed c'.state.dag
        × (c'.state.dag ≡ admitted.state.dag)
        × ((is_ready admitted ≡ false) × (c'.state.current_round ≡ c.state.current_round)
            ⊎ (is_ready admitted ≡ true)
              × (c'.state.current_round ≡ (c.state.current_round + 1) % u32_mod))
  unfolding turn
  turn_keeps fuel c' e =
      let c0 = record c { blocks_to_propose = c.blocks_to_propose ++ blocks } in
      let after = advance-state ext fuel (admit_all c0 buffer) c' e in
      let round = (admit_all-same c0 buffer).1 in
      (
        subst IsWellFormed (sym after.0) (admit_all-IsWellFormed c0 buffer ok layered),
        after.0,
        ⊎_elim (λ (stay, same). inl (stay, same ∙ round))
            (λ (go, next). inr (go, next ∙ ap (λ n. (n + 1) % u32_mod) round)) after.1,
      )
