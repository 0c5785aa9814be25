-- ===== src/Consensus/Protocol/History.antt =====
-- Runs of a node: turns of the loop of `run` (consensus/consensus.cpp, lines 42 to 73) one after
-- another, from the state that the constructor makes.
use mathlib.Core.List.Memᴰ
use dag_rider.Prelude.{
  ℕ, ◌≡◌, sym, subst, inl, inr, ◌&&◌, List, [], ◌∷◌, ◌++◌, Memᴰ, some, arith, All, All-mem, All-map,
  All-append_inv, leb, ◌==◌, Bool-cases,
}
use dag_rider.Containers.{values}
use dag_rider.Containers.Hashed
use dag_rider.Containers.Ordered
use dag_rider.Model.External.{External}
use dag_rider.Model.Block.{Block}
use dag_rider.Model.Vertex.{Vertex}
use dag_rider.Model.Committee.{Committee}
use dag_rider.Consensus.State
use dag_rider.Consensus.Dag.{Dag, Round, add_roots, bucket, insert_vertex, contains_vertices}
use dag_rider.Consensus.Dag
use dag_rider.Consensus.Dag.Turns.{IsLayered}
use dag_rider.Consensus.Dag.Links.{Ancestor, parent, older}
use dag_rider.Consensus.Dag.Lookup.{IsHeld, get_vertex-mem}
use dag_rider.Consensus.Dag.Insertion.{
  IsWellFormed, insert_vertex-IsWellFormed, create-IsWellFormed, values-IsPlaced,
}
use dag_rider.Consensus.Dag.Closure.{IsClosed, insert_vertex-IsClosed, insert_vertex-inv}
use dag_rider.Consensus.Protocol.{Consensus, Memory, create}
use dag_rider.Consensus.Protocol.Loop.{admit, admit_all, turn}
use dag_rider.Consensus.Protocol.Totality.Turn.{turn_keeps}

-- The turns that lead from `c` to a state, with the vertices received in them.
pub data Runs (ext : External) (c : Consensus) : Consensus → List Vertex → Type 0 where
  begin : Runs ext c c []
  go :
      {d e : Consensus} {received : List Vertex} (fuel : ℕ) (buffer : List Vertex)
      (blocks : List Block)
      → Runs ext c d received
      → turn ext fuel d buffer blocks ≡ some e
      → Runs ext c e (received ++ buffer)

-- Among the vertices with the property, one owner has one hash in a round.
abbrev pub HasNoRivals : (Vertex → Type 0) → Type 0
HasNoRivals U = (v w : Vertex) → U v → U w → v.owner ≡ w.owner → v.round ≡ w.round → w.hash ≡ v.hash

add_roots-All :
    (P : Vertex → Type 0) (root : List Vertex) (round : Round)
    → All P root
    → All (λ (e : ℕ × Vertex). P e.1) round
    → All (λ (e : ℕ × Vertex). P e.1) (add_roots root round)
unfolding add_roots
add_roots-All P [] round h a = a
add_roots-All P (v ∷ root) round h a =
    add_roots-All P root (Hashed.insert v.owner v round) h.1
      (Hashed.All-insert (λ (e : ℕ × Vertex). P e.1) v.owner v round h.0 a)

All-values :
    (P : Vertex → Type 0) (round : Round)
    → All (λ (e : ℕ × Vertex). P e.1) round
    → All P (values round)
All-values P [] a = tt
All-values P (e ∷ round) a = (a.0, All-values P round a.1)

-- What a new graph holds, it was given.
mem-create :
    (P : Vertex → Type 0) (root : List Vertex) (quorum r : ℕ) (v : Vertex)
    → All P root
    → Memᴰ v (values (bucket (Dag.create root quorum) r))
    → P v
unfolding Dag.create Ordered.insert
mem-create P root quorum r v h m = elim (Bool-cases (1 == r)) [
  | inl first ↦ All-mem P _ (All-values P _ (add_roots-All P root [] h tt)) (rw first at m)
  | inr other ↦ absurd (Memᴰ.not-nil (rw other at m))
]

module _ (U : Vertex → Type 0) (calm : HasNoRivals U) where
  -- A well-formed graph of vertices with the property, with their parents.
  pub record IsCausal (d : Dag) : Type 0 where
    pub formed : IsWellFormed d
    pub closed : IsClosed d
    pub each : (r : ℕ) (v : Vertex) → Memᴰ v (values (bucket d r)) → U v × (v.round ≡ r)

  admit-IsCausal :
      (c : Consensus) (v : Vertex)
      → U v
      → IsLayered v
      → IsCausal c.state.dag
      → IsCausal (admit c v).state.dag
  unfolding admit
  admit-IsCausal c v u layered k =
      elim (Bool-cases
        (leb v.round c.state.current_round && contains_vertices c.state.dag v.parents)) [
          | inr refused ↦ rw (refused, admit) k
          | inl admitted ↦
              rw (admitted, admit)
                (record {
                  formed = insert_vertex-IsWellFormed c.state.dag v k.formed layered;
                  closed =
                      insert_vertex-IsClosed c.state.dag v k.formed layered
                        (λ p m owner.
                          let (up, round) = k.each v.round p m in calm v p u up owner (sym round))
                        (ground arith) k.closed;
                  each = λ r p m. elim (insert_vertex-inv c.state.dag v p r k.formed layered m) [
                    | inl same ↦ (
                      subst U (sym same) u,
                      (values-IsPlaced _ r p
                          (insert_vertex-IsWellFormed c.state.dag v k.formed layered) m).0,
                    )
                    | inr before ↦ k.each r p before
                  ];
                })
        ]

  admit_all-IsCausal :
      (c : Consensus) (buffer : List Vertex)
      → All (λ (v : Vertex). U v × IsLayered v) buffer
      → IsCausal c.state.dag
      → IsCausal (admit_all c buffer).state.dag
  unfolding admit_all
  admit_all-IsCausal c [] h k = k
  admit_all-IsCausal c (v ∷ buffer) h k =
      admit_all-IsCausal (admit c v) buffer h.1 (admit-IsCausal c v h.0.0 h.0.1 k)

  pub turn-IsCausal :
      (ext : External) (fuel : ℕ) (c d : Consensus) (buffer : List Vertex) (blocks : List Block)
      → turn ext fuel c buffer blocks ≡ some d
      → All (λ (v : Vertex). U v × IsLayered v) buffer
      → IsCausal c.state.dag
      → IsCausal d.state.dag
  turn-IsCausal ext fuel c d buffer blocks e h k =
      let layered = All-map _ IsLayered buffer (λ v x. x.1) h in
      let admitted = turn_keeps ext c buffer blocks k.formed layered fuel d e in
      subst IsCausal (sym admitted.1) (
        admit_all-IsCausal (record c { blocks_to_propose = c.blocks_to_propose ++ blocks }) buffer h
          k)

  Runs-IsCausal :
      (ext : External) (c d : Consensus) (received : List Vertex)
      → Runs ext c d received
      → All (λ (v : Vertex). U v × IsLayered v) received
      → IsCausal c.state.dag
      → IsCausal d.state.dag
  Runs-IsCausal ext c d received begin h k = k
  Runs-IsCausal ext c d received (go {d = b} {received = before} fuel buffer blocks run e) h k =
      let (early, late) = All-append_inv (λ (v : Vertex). U v × IsLayered v) before buffer h in
      turn-IsCausal ext fuel b d buffer blocks e late (Runs-IsCausal ext c b before run early k)

  pub IsCausal-history :
      (d : Dag) {h r : ℕ} {v : Vertex}
      → IsCausal d
      → All (λ (e : ℕ × ℕ). IsHeld d e.0 e.1) v.parents
      → Ancestor d h r v
      → IsHeld d h r
  IsCausal-history d {h} {r} {v} k parents (parent m) =
      All-mem (λ (e : ℕ × ℕ). IsHeld d e.0 e.1) v.parents parents m
  IsCausal-history d {v = v} k parents (older {p = p} h r m held rest) =
      IsCausal-history d k (k.closed.held r p (get_vertex-mem d h r p held).0) rest

  pub roots-IsCausal :
      (genesis : List Vertex) (quorum : ℕ)
      → All (λ (v : Vertex). U v × (v.round ≡ 1) × (v.parents ≡ [])) genesis
      → IsCausal (Dag.create genesis quorum)
  roots-IsCausal genesis quorum h =
      let root =
        λ (r : ℕ) (v : Vertex) (m : Memᴰ v (values (bucket (Dag.create genesis quorum) r))).
          mem-create (λ (x : Vertex). U x × (x.round ≡ 1) × (x.parents ≡ [])) genesis quorum r v h
            m in
      let formed = create-IsWellFormed genesis quorum (
        All-map _ (λ (v : Vertex). (v.round ≡ 1) × IsLayered v) genesis
          (λ v (u, round, none). (round, subst (All _) (sym none) tt)) h) in
      record {
        formed = formed;
        closed = record { held = λ r v m. subst (All _) (sym (root r v m).2) tt };
        each = λ r v m. ((root r v m).0, (values-IsPlaced _ r v formed m).0);
      }

  -- A node that starts from vertices of round 1 without parents, and receives, in any number of
  -- turns, vertices that name parents of earlier rounds, has the whole causal history of every vertex
  -- in its graph, as long as no owner has two hashes in one round.
  pub Runs-holds_history :
      (ext : External) (memory : Memory) (node_id : ℕ) (committee : Committee)
      (genesis received : List Vertex) (d : Consensus)
      → All (λ (v : Vertex). U v × (v.round ≡ 1) × (v.parents ≡ [])) genesis
      → All (λ (v : Vertex). U v × IsLayered v) received
      → Runs ext (create memory node_id committee genesis) d received
      → (r : ℕ) (v : Vertex) → Memᴰ v (values (bucket d.state.dag r))
      → (hash round : ℕ) → Ancestor d.state.dag hash round v
      → IsHeld d.state.dag hash round
  unfolding create State.create
  Runs-holds_history ext memory node_id committee genesis received d roots fine run r v m hash round
        history =
      let k =
        Runs-IsCausal ext (create memory node_id committee genesis) d received run fine
          (roots-IsCausal genesis _ roots) in
      IsCausal-history d.state.dag k (k.closed.held r v m) history
