-- ===== src/Consensus/Quorum.antt =====
-- Quorums in the graphs of two nodes (consensus/dag.cpp, lines 39 to 42, consensus/state.cpp, line 8,
-- and model/committee.cpp, line 34).
use dag_rider.Prelude.{
  ℕ, ◌-◌, ◌/◌, ◌^◌, ◌≤◌, ◌<◌, ◌≡◌, [], Memᴰ, true, ◌&&◌, arith, length, length-map, All, ◌∙◌,
}
use dag_rider.Containers.{keys}
use dag_rider.Model.External.{External}
use dag_rider.Model.Block
use dag_rider.Model.Vertex
use dag_rider.Model.Vertex.{genesis}
use dag_rider.Model.Committee.{Committee, size, quorum_threshold, get_nodes_keys}
use dag_rider.Model.Committee.Quorums.{count_if, has, length-le-count_if, quorums_overlap}
use dag_rider.Consensus.State.{State}
use dag_rider.Consensus.State
use dag_rider.Consensus.Dag.{Dag, bucket, is_quorum_reached_for_round}
use dag_rider.Consensus.Dag
use dag_rider.Consensus.Dag.Insertion.{IsWellFormed, bucket-IsRound}

pub length-get_nodes_keys : (c : Committee) → length (get_nodes_keys c) ≡ size c
unfolding get_nodes_keys size
length-get_nodes_keys c = length-map _ (λ v. v.public_key) ∙ length-map c (λ e. e.1)

-- The quorum that a node computes from the genesis vertices of its committee is the committee's
-- own threshold, for committees of less than 2 ^ 31 validators.
pub min_quorum-quorum_threshold :
    (ext : External) (c : Committee)
    → size c < 2 ^ 31
    → (State.create (genesis ext (get_nodes_keys c))).dag.min_quorum ≡ quorum_threshold c
unfolding State.create Dag.create genesis quorum_threshold size
min_quorum-quorum_threshold ext c small = omega (
  arith,
  length-map (get_nodes_keys c) (λ owner. Vertex.create ext owner 1 Block.default []),
  length-get_nodes_keys c,
)

pub reached :
    (g : Dag) (k : ℕ) → is_quorum_reached_for_round g k ≡ true → g.min_quorum ≤ length (bucket g k)
unfolding is_quorum_reached_for_round
reached g k h = ground arith

-- If the graphs of two nodes hold, each in some round, a quorum of vertices owned by members of a
-- committee whose keys differ, then more than (n - 1) / 3 of its n members own a vertex in both:
-- one more than may be faulty.
pub is_quorum_reached_for_round-overlap :
    (c : Committee) (d e : Dag) (r s : ℕ)
    → 0 < size c
    → size c < 2 ^ 62
    → d.min_quorum ≡ quorum_threshold c
    → e.min_quorum ≡ quorum_threshold c
    → IsWellFormed d
    → IsWellFormed e
    → All (λ (k : ℕ). Memᴰ k (get_nodes_keys c)) (keys (bucket d r))
    → All (λ (k : ℕ). Memᴰ k (get_nodes_keys c)) (keys (bucket e s))
    → is_quorum_reached_for_round d r ≡ true
    → is_quorum_reached_for_round e s ≡ true
    → (size c - 1) / 3 < count_if (λ k. has (bucket d r) k && has (bucket e s) k) (get_nodes_keys c)
is_quorum_reached_for_round-overlap c d e r s pos small qd qe wd we md me hd he =
    quorums_overlap c (has (bucket d r)) (has (bucket e s)) (get_nodes_keys c)
      (length-get_nodes_keys c) pos small
      (omega (
        arith,
        reached d r hd,
        length-le-count_if (bucket d r) (get_nodes_keys c) (bucket-IsRound d r wd).0 md,
      ))
      (omega (
        arith,
        reached e s he,
        length-le-count_if (bucket e s) (get_nodes_keys c) (bucket-IsRound e s we).0 me,
      ))
