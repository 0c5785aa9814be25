-- ===== src/Consensus/Protocol/Honest.antt =====
-- What a node broadcasts along the turns of its loop (consensus/consensus.cpp, lines 42 to 91).
use mathlib.Core.List.{Perm, perm_append_singleton, append_assoc, append-nil, map-append}
use mathlib.Core.List.Perm
use dag_rider.Prelude.{
  Perm-eq, ℕ, ◌+◌, ◌≤◌, ◌<◌, ◌≡◌, refl, ap, ◌∙◌, sym, subst, List, [], ◌∷◌, ◌++◌, map, some, arith,
  All, All-append, All-map, length, bind-eq-some, some_eq,
}
use dag_rider.Model.External.{External}
use dag_rider.Model.Block.{Block}
use dag_rider.Model.Vertex.{Vertex}
use dag_rider.Model.Committee.{Committee}
use dag_rider.Consensus.State
use dag_rider.Consensus.Dag.{u32_mod}
use dag_rider.Consensus.Protocol.{Consensus, Memory, create}
use dag_rider.Consensus.Protocol.Loop.{Received, turn, run}
use dag_rider.Consensus.Protocol.Turned.{Turned, waits, proposes, turn-Turned}

-- The rounds of the vertices rise along the list.
abbrev pub AreRising : List Vertex → Type 0
AreRising [] = Unit
AreRising (v ∷ vs) = All (λ (w : Vertex). v.round < w.round) vs × AreRising vs

AreRising-append :
    (vs : List Vertex) (w : Vertex)
    → AreRising vs
    → All (λ (v : Vertex). v.round < w.round) vs
    → AreRising (vs ++ w ∷ [])
AreRising-append [] w h a = (tt, tt)
AreRising-append (v ∷ vs) w h a =
    (All-append _ vs (w ∷ []) h.0 (a.0, tt), AreRising-append vs w h.1 a.1)

-- What a node has sent is its own, one vertex for a round, from round 2 on, and of no round that it has
-- not reached.
pub record IsHonest (node_id : ℕ) (c : Consensus) : Type 0 where
  pub node : c.node_id ≡ node_id
  pub begun : 1 ≤ c.state.current_round
  pub rising : AreRising c.vertex_to_broadcast
  pub own :
      All
        (λ (v : Vertex). (v.owner ≡ node_id) × (2 ≤ v.round) × (v.round ≤ c.state.current_round))
        c.vertex_to_broadcast

pub Turned-IsHonest :
    (ext : External) (node_id : ℕ) (c e : Consensus) (blocks : List Block)
    → Turned ext c blocks e
    → c.state.current_round + 1 < u32_mod
    → IsHonest node_id c
    → IsHonest node_id e × (e.state.current_round ≤ c.state.current_round + 1)
Turned-IsHonest ext node_id c e blocks (waits node round sent _) room h = (
  record {
    node = node ∙ h.node;
    begun = omega (arith, h.begun);
    rising = subst AreRising (sym sent) h.rising;
    own =
        subst (All _) (sym sent)
          (All-map _ _ c.vertex_to_broadcast (λ v (o, low, r). (o, low, omega arith)) h.own);
  },
  omega arith,
)
Turned-IsHonest ext node_id c e blocks (proposes v _ _ node round sent _ owner of_round _ _) room
      h =
    let next : e.state.current_round ≡ c.state.current_round + 1 = omega arith in
    (
      record {
        node = node ∙ h.node;
        begun = omega (arith, h.begun);
        rising = subst AreRising (sym sent) (
            AreRising-append c.vertex_to_broadcast v h.rising
              (All-map _ _ c.vertex_to_broadcast (λ w (o, low, r). omega arith) h.own));
        own = subst (All _) (sym sent) (
            All-append _ c.vertex_to_broadcast (v ∷ [])
              (All-map _ _ c.vertex_to_broadcast (λ w (o, low, r). (o, low, omega arith)) h.own)
              ((owner ∙ h.node, omega (arith, h.begun), omega arith), tt));
      },
      omega arith,
    )

run-IsHonest :
    (ext : External) (fuel node_id : ℕ) (c d : Consensus) (rs : List Received)
    → run ext fuel c rs ≡ some d
    → c.state.current_round + length rs < u32_mod
    → IsHonest node_id c
    → IsHonest node_id d
unfolding run
run-IsHonest ext fuel node_id c d [] e room h = subst (IsHonest node_id) (some_eq e) h
run-IsHonest ext fuel node_id c d (r ∷ rs) e room h =
    let (b, ran, rest) = bind-eq-some (turn ext fuel c r.vertices r.blocks) _ e in
    let (honest, near) =
      Turned-IsHonest ext node_id c b r.blocks (turn-Turned ext fuel c b r.vertices r.blocks ran)
        (omega arith) h in
    run-IsHonest ext fuel node_id b d rs rest (omega arith) honest

pub create-IsHonest :
    (memory : Memory) (node_id : ℕ) (committee : Committee) (genesis : List Vertex)
    → IsHonest node_id (create memory node_id committee genesis)
unfolding create State.create
create-IsHonest memory node_id committee genesis = record {
  node = refl;
  begun = omega arith;
  rising = tt;
  own = tt;
}

-- In fewer than 2 ^ 32 - 1 turns from the start, whatever it receives, a node broadcasts no two vertices
-- of one round: their rounds rise in the order of sending, and each is its own and of a round from 2
-- to the one that it has reached.
pub run-no_equivocation :
    (ext : External) (memory : Memory) (fuel node_id : ℕ) (committee : Committee)
    (genesis : List Vertex) (rs : List Received) (d : Consensus)
    → length rs + 1 < u32_mod
    → run ext fuel (create memory node_id committee genesis) rs ≡ some d
    → AreRising d.vertex_to_broadcast
      × All
          (λ (v : Vertex). (v.owner ≡ node_id) × (2 ≤ v.round) × (v.round ≤ d.state.current_round))
          d.vertex_to_broadcast
unfolding create State.create
run-no_equivocation ext memory fuel node_id committee genesis rs d room e =
    let h =
      run-IsHonest ext fuel node_id (create memory node_id committee genesis) d rs e (omega arith)
        (create-IsHonest memory node_id committee genesis) in
    (h.rising, h.own)

-- The blocks that a node has proposed, and those that wait to be.
abbrev blocks_of : Consensus → List Block
blocks_of c = map (λ v. v.block) c.vertex_to_broadcast ++ c.blocks_to_propose

Turned-blocks :
    (ext : External) (c e : Consensus) (blocks : List Block)
    → Turned ext c blocks e
    → Perm (blocks_of e) (blocks_of c ++ blocks)
Turned-blocks ext c e blocks (waits _ _ sent left) =
    let old = map (λ (v : Vertex). v.block) c.vertex_to_broadcast in
    Perm-eq (
      ap (λ vs. map (λ (v : Vertex). v.block) vs ++ e.blocks_to_propose) sent
      ∙ ap (λ bs. old ++ bs) left
      ∙ sym (append_assoc old c.blocks_to_propose blocks))
Turned-blocks ext c e blocks (proposes v _ _ _ _ sent left _ _ _ _) =
    let old = map (λ (v : Vertex). v.block) c.vertex_to_broadcast in
    Perm.trans
      (Perm-eq (
        ap (λ vs. map (λ (v : Vertex). v.block) vs ++ e.blocks_to_propose) sent
        ∙ ap (λ bs. bs ++ e.blocks_to_propose)
            (map-append (λ (v : Vertex). v.block) c.vertex_to_broadcast (v ∷ []))
        ∙ append_assoc old (v.block ∷ []) e.blocks_to_propose))
      (Perm.trans
        (Perm.append_left old (Perm.symm (perm_append_singleton v.block e.blocks_to_propose)))
        (Perm-eq
          (ap (λ bs. old ++ bs) (sym left) ∙ sym (append_assoc old c.blocks_to_propose blocks))))

-- All the blocks received.
unfoldable pub received_blocks : List Received → List Block
received_blocks [] = []
received_blocks (r ∷ rs) = r.blocks ++ received_blocks rs

run-blocks_of :
    (ext : External) (fuel : ℕ) (c d : Consensus) (rs : List Received)
    → run ext fuel c rs ≡ some d
    → Perm (blocks_of d) (blocks_of c ++ received_blocks rs)
unfolding run received_blocks
run-blocks_of ext fuel c d [] e =
    Perm-eq (ap blocks_of (sym (some_eq e)) ∙ sym (append-nil (blocks_of c)))
run-blocks_of ext fuel c d (r ∷ rs) e =
    let (b, ran, rest) = bind-eq-some (turn ext fuel c r.vertices r.blocks) _ e in
    Perm.trans (run-blocks_of ext fuel b d rs rest) (
      Perm.trans
        (Perm.append_right (received_blocks rs)
          (Turned-blocks ext c b r.blocks (turn-Turned ext fuel c b r.vertices r.blocks ran)))
        (Perm-eq (append_assoc (blocks_of c) r.blocks (received_blocks rs))))

-- No block is lost or proposed twice: after any turns from the start, the blocks of the vertices that a
-- node has broadcast, with those that wait to be proposed, are the blocks that it received, in some
-- order.
pub run-blocks :
    (ext : External) (memory : Memory) (fuel node_id : ℕ) (committee : Committee)
    (genesis : List Vertex) (rs : List Received) (d : Consensus)
    → run ext fuel (create memory node_id committee genesis) rs ≡ some d
    → Perm (map (λ v. v.block) d.vertex_to_broadcast ++ d.blocks_to_propose) (received_blocks rs)
unfolding create
run-blocks ext memory fuel node_id committee genesis rs d e =
    run-blocks_of ext fuel (create memory node_id committee genesis) d rs e
