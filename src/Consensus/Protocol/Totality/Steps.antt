-- ===== src/Consensus/Protocol/Totality/Steps.antt =====
-- One turn of the consensus loop (consensus/consensus.cpp, lines 42 to 134) returns and keeps the
-- graph well formed.
use mathlib.Core.List.{reverse}
use dag_rider.Prelude.{
  ℕ, zero, suc, ◌<◌, ◌≡◌, refl, List, [], ◌∷◌, ◌++◌, Option, some, arith, Settles, Settles-some,
  Settles-bind, Settles-Bool, Settles-Option, Settles-const, All, All-mem, All-intro,
}
use dag_rider.Containers.{find, values, mem-of_find}
use dag_rider.Model.Vertex.{Vertex}
use dag_rider.Model.Committee.{size}
use dag_rider.Consensus.Dag.{Round, bucket}
use dag_rider.Consensus.Dag.Turns.{IsLayered, IsLayeredDag}
use dag_rider.Consensus.Dag.Insertion.{
  IsWellFormed, IsRound, IsPlaced, bucket-IsRound, values-IsPlaced, IsWellFormed-IsLayeredDag,
  insert_vertex-IsWellFormed,
}
use dag_rider.Consensus.Protocol.{
  Consensus, Memory, Pointer, living, freed, read, max_wave, wave_before, get_round_for_wave,
  get_wave_vertex_leader, leaders_loop, get_leaders_to_commit, order_vertices, get_ordered_vertices,
}
use dag_rider.Consensus.Protocol.Loop.{admit, admit_all}
use dag_rider.Consensus.Protocol.Leaders.{leader_key-member}
use dag_rider.Consensus.Protocol.Totality.{
  is_strongly_linked-Settles, is_linked_with_others_in_round-Settles, order_loop-Settles,
}

admit-IsWellFormed :
    (c : Consensus) (v : Vertex)
    → IsWellFormed c.state.dag
    → IsLayered v
    → IsWellFormed (admit c v).state.dag
unfolding admit
admit-IsWellFormed c v w layered =
    ground (arith, insert_vertex-IsWellFormed c.state.dag v w layered)

pub admit_all-IsWellFormed :
    (c : Consensus) (buffer : List Vertex)
    → IsWellFormed c.state.dag
    → All IsLayered buffer
    → IsWellFormed (admit_all c buffer).state.dag
unfolding admit_all
admit_all-IsWellFormed c [] w layered = w
admit_all-IsWellFormed c (v ∷ buffer) w layered =
    admit_all-IsWellFormed (admit c v) buffer (admit-IsWellFormed c v w layered.0) layered.1

-- What a freed vertex is read as names parents of earlier rounds only, if vertices do.
abbrev pub IsSound : Memory → Type 0
IsSound memory =
    (round : ℕ) (v w : Vertex) → IsLayered v → IsLayered w → IsLayered (memory round v w)

abbrev IsLayeredPointer : Pointer → Type 0
IsLayeredPointer (living v) = IsLayered v
IsLayeredPointer (freed v) = IsLayered v

module _ (c : Consensus) (ok : IsWellFormed c.state.dag) where
  pub layered_dag : IsLayeredDag c.state.dag
  layered_dag = IsWellFormed-IsLayeredDag c.state.dag ok

  values-IsLayered : (r : ℕ) → All IsLayered (values (bucket c.state.dag r))
  values-IsLayered r = All-intro IsLayered _ (λ v m. (values-IsPlaced c.state.dag r v ok m).1)

  module _ (members : 0 < size c.committee) (sound : IsSound c.memory) where
    -- With a committee there is a leader's key; the vertex is there or not.
    leader-there :
        (wave : ℕ)
        → (o : Option Vertex) × (get_wave_vertex_leader c wave ≡ some o)
          × ((v : Vertex) → o ≡ some v → IsLayered v)
    unfolding get_wave_vertex_leader
    leader-there wave =
        let (k, e, _) = leader_key-member c.committee wave members in
        let r = get_round_for_wave wave 1 in
        (
          find k (bucket c.state.dag r),
          rw (e, get_wave_vertex_leader) refl,
          λ v found.
              (All-mem (IsPlaced r) (bucket c.state.dag r) (bucket-IsRound c.state.dag r ok).1
                (mem-of_find k (bucket c.state.dag r) found)).2,
        )

    read-IsLayered :
        (leader : Pointer) (p : Vertex)
        → IsLayeredPointer leader
        → IsLayered p
        → IsLayered (read c leader p)
    unfolding read
    read-IsLayered (living v) p layered below = layered
    read-IsLayered (freed v) p layered below = sound c.state.current_round v p layered below

    leaders_loop-Settles :
        (wave : ℕ) (leader : Pointer) (to_commit : List Vertex)
        → IsLayeredPointer leader
        → Settles (λ fuel. leaders_loop fuel c wave leader to_commit)
    unfolding leaders_loop Settles-const
    leaders_loop-Settles zero leader to_commit layered = Settles-some to_commit
    leaders_loop-Settles (suc wave) leader to_commit layered =
        let (o, found, of_graph) = leader-there (suc wave) in
        Settles-bind _ _ (Settles-const _ o found) (
          Settles-Option o _ _ (leaders_loop-Settles wave leader to_commit layered) (λ p there.
            let linked =
              is_strongly_linked-Settles c.state.dag layered_dag (read c leader p) p
                (read-IsLayered leader p layered (of_graph p there)) in
            Settles-bind _ _ linked (
              Settles-Bool linked.result _ _
                (leaders_loop-Settles wave (freed p) (to_commit ++ p ∷ []) (of_graph p there))
                (leaders_loop-Settles wave leader to_commit layered))))

    rounds-IsLayered :
        (graph : List (ℕ × Round))
        → All IsRound graph
        → All (λ (e : ℕ × Round). All IsLayered (values e.1)) graph
    rounds-IsLayered [] h = tt
    rounds-IsLayered ((r, vs) ∷ graph) h = (placed_layered vs h.0.1, rounds-IsLayered graph h.1)
      where
        placed_layered : (ws : Round) → All (IsPlaced r) ws → All IsLayered (values ws)
        placed_layered [] a = tt
        placed_layered (w ∷ ws) a = (a.0.2, placed_layered ws a.1)

    pub get_ordered_vertices-Settles :
        (wave : ℕ) → Settles (λ fuel. get_ordered_vertices fuel c wave)
    unfolding get_ordered_vertices get_leaders_to_commit order_vertices Settles-const
    get_ordered_vertices-Settles wave =
        let (o, found, of_graph) = leader-there wave in
        Settles-bind _ _ (Settles-const _ o found) (
          Settles-Option o _ _ (Settles-some (c, [])) (λ leader there.
            let enough =
              is_linked_with_others_in_round-Settles c.state.dag layered_dag leader
                (get_round_for_wave wave max_wave)
                (values-IsLayered (get_round_for_wave wave max_wave)) in
            let leaders =
              leaders_loop-Settles (wave_before wave) (living leader) (leader ∷ [])
                (of_graph leader there) in
            let ordered =
              order_loop-Settles c.state.dag layered_dag (reverse leaders.result)
                (record { ordered = []; delivered = [] })
                (rounds-IsLayered c.state.dag.graph ok.rounds) in
            Settles-bind _ _ enough (
              Settles-Bool enough.result _ _
                (Settles-bind _ _ leaders
                  (Settles-bind _ _ (Settles-bind _ _ ordered (Settles-some _)) (Settles-some _)))
                (Settles-some (c, [])))))
