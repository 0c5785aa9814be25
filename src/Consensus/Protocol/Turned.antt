-- ===== src/Consensus/Protocol/Turned.antt =====
-- What a turn of the loop does to the blocks and to the vertices that are broadcast
-- (consensus/consensus.cpp, lines 45 to 91).
use mathlib.Core.List.{append-nil}
use dag_rider.Prelude.{
  ℕ, zero, suc, ◌+◌, ◌%◌, ◌≡◌, refl, ap, ◌∙◌, sym, subst, bind-eq-some, ◌/◌, List, [], ◌∷◌, ◌++◌,
  Bool, true, ◌&&◌, none, some, ltb, leb, Bool-cases, Option-cases, inl, inr, some_eq,
  if◌then◌else◌,
}
use dag_rider.Containers.{values}
use dag_rider.Model.External.{External}
use dag_rider.Model.Block.{Block}
use dag_rider.Model.Vertex.{Vertex, add_parent}
use dag_rider.Model.Vertex
use dag_rider.Consensus.Dag.{Dag, bucket, is_linked, u32_mod, contains_vertices}
use dag_rider.Consensus.Protocol.{
  Consensus, link_round, weak_edges_loop, set_weak_edges, new_vertex, pop_back, create_new_vertex,
  get_ordered_vertices, is_last_round_in_wave, max_wave,
}
use dag_rider.Consensus.Protocol.Outcomes.{no_leader, too_few, decided, get_ordered_vertices-Waved}
use dag_rider.Consensus.Protocol.Loop.{
  admit, admit_all, output_wave, next_round, is_ready, advance, turn,
}

-- Weak edges change nothing but the parents.
record IsGrown (v w : Vertex) : Type 0 where
  owner : w.owner ≡ v.owner
  round : w.round ≡ v.round
  block : w.block ≡ v.block

IsGrown-trans : (u v w : Vertex) → IsGrown u v → IsGrown v w → IsGrown u w
IsGrown-trans u v w g h = record {
  owner = h.owner ∙ g.owner;
  round = h.round ∙ g.round;
  block = h.block ∙ g.block;
}

IsGrown-refl : (v : Vertex) → IsGrown v v
IsGrown-refl v = record { owner = refl; round = refl; block = refl }

IsGrown-add_parent :
    (v : Vertex) (h r : ℕ) (linked : Bool) → IsGrown v (if linked then v else add_parent v h r)
unfolding add_parent
IsGrown-add_parent v h r linked = elim (Bool-cases linked) [
  | inl e ↦ rw e (IsGrown-refl v)
  | inr e ↦ rw e (record { owner = refl; round = refl; block = refl })
]

link_round-IsGrown :
    (fuel : ℕ) (dag : Dag) (r : ℕ) (vs : List Vertex) (v w : Vertex)
    → link_round fuel dag r vs v ≡ some w
    → IsGrown v w
unfolding link_round
link_round-IsGrown fuel dag r [] v w e = subst (IsGrown v) (some_eq e) (IsGrown-refl v)
link_round-IsGrown fuel dag r (u ∷ vs) v w e = elim (Option-cases (is_linked fuel dag v u)) [
  | inl n ↦ cc (rw (n, link_round) at e)
  | inr (linked, n) ↦
      IsGrown-trans v (if linked then v else add_parent v u.hash r) w
        (IsGrown-add_parent v u.hash r linked)
        (link_round-IsGrown fuel dag r vs _ w (rw (n, link_round) at e))
]

weak_edges_loop-IsGrown :
    (fuel : ℕ) (dag : Dag) (r : ℕ) (v w : Vertex)
    → weak_edges_loop fuel dag r v ≡ some w
    → IsGrown v w
unfolding weak_edges_loop
weak_edges_loop-IsGrown fuel dag zero v w e = subst (IsGrown v) (some_eq e) (IsGrown-refl v)
weak_edges_loop-IsGrown fuel dag (suc r) v w e =
    elim (Option-cases (link_round fuel dag (suc r) (values (bucket dag (suc r))) v)) [
      | inl n ↦ cc (rw (n, weak_edges_loop) at e)
      | inr (u, n) ↦
          IsGrown-trans v u w (link_round-IsGrown fuel dag (suc r) _ v u n)
            (weak_edges_loop-IsGrown fuel dag r u w (rw (n, weak_edges_loop) at e))
    ]

new_vertex-IsGrown :
    (ext : External) (fuel : ℕ) (c : Consensus) (round : ℕ) (block : Block) (v : Vertex)
    → new_vertex ext fuel c round block ≡ some v
    → (v.owner ≡ c.node_id) × (v.round ≡ round) × (v.block ≡ block)
unfolding new_vertex Vertex.create set_weak_edges
new_vertex-IsGrown ext fuel c round block v e = elim (Bool-cases (ltb 2 round)) [
  | inl later ↦
      let g = weak_edges_loop-IsGrown fuel c.state.dag _ _ v (rw (later, new_vertex) at e) in
      (g.owner, g.round, g.block)
  | inr early ↦
      let same = some_eq (rw (early, new_vertex) at e) in
      (
        ap (λ (x : Vertex). x.owner) (sym same),
        ap (λ (x : Vertex). x.round) (sym same),
        ap (λ (x : Vertex). x.block) (sym same),
      )
]

-- The node keeps its round and adds the blocks received, or it goes on by a round and sends a vertex
-- that proposes the last of the blocks that it then has.
pub data Turned (ext : External) (c : Consensus) (blocks : List Block) (e : Consensus)
    : Type 0 where
  waits :
      e.node_id ≡ c.node_id
      → e.state.current_round ≡ c.state.current_round
      → e.vertex_to_broadcast ≡ c.vertex_to_broadcast
      → e.blocks_to_propose ≡ c.blocks_to_propose ++ blocks
      → Turned ext c blocks e
  proposes :
      (v : Vertex) (fuel : ℕ) (m : Consensus)
      → e.node_id ≡ c.node_id
      → e.state.current_round ≡ (c.state.current_round + 1) % u32_mod
      → e.vertex_to_broadcast ≡ c.vertex_to_broadcast ++ v ∷ []
      → c.blocks_to_propose ++ blocks ≡ e.blocks_to_propose ++ v.block ∷ []
      → v.owner ≡ c.node_id
      → v.round ≡ e.state.current_round
      → m.state.dag ≡ e.state.dag
      → new_vertex ext fuel m e.state.current_round v.block ≡ some v
      → Turned ext c blocks e

-- All but the graph, what was put out and the decided wave.
record IsAlike (c d : Consensus) : Type 0 where
  node_id : d.node_id ≡ c.node_id
  current_round : d.state.current_round ≡ c.state.current_round
  vertex_to_broadcast : d.vertex_to_broadcast ≡ c.vertex_to_broadcast
  blocks_to_propose : d.blocks_to_propose ≡ c.blocks_to_propose

IsAlike-refl : (c : Consensus) → IsAlike c c
IsAlike-refl c = record {
  node_id = refl;
  current_round = refl;
  vertex_to_broadcast = refl;
  blocks_to_propose = refl;
}

admit-IsAlike : (c : Consensus) (v : Vertex) → IsAlike c (admit c v)
unfolding admit
admit-IsAlike c v =
    elim (Bool-cases
      (leb v.round c.state.current_round && contains_vertices c.state.dag v.parents)) [
        | inl e ↦
            rw (e, admit)
              (record {
                node_id = refl;
                current_round = refl;
                vertex_to_broadcast = refl;
                blocks_to_propose = refl;
              })
        | inr e ↦ rw (e, admit) (IsAlike-refl c)
      ]

IsAlike-trans : (b c d : Consensus) → IsAlike b c → IsAlike c d → IsAlike b d
IsAlike-trans b c d g h = record {
  node_id = h.node_id ∙ g.node_id;
  current_round = h.current_round ∙ g.current_round;
  vertex_to_broadcast = h.vertex_to_broadcast ∙ g.vertex_to_broadcast;
  blocks_to_propose = h.blocks_to_propose ∙ g.blocks_to_propose;
}

admit_all-IsAlike : (c : Consensus) (buffer : List Vertex) → IsAlike c (admit_all c buffer)
unfolding admit_all
admit_all-IsAlike c [] = IsAlike-refl c
admit_all-IsAlike c (v ∷ buffer) =
    IsAlike-trans c (admit c v) _ (admit-IsAlike c v) (admit_all-IsAlike (admit c v) buffer)

get_ordered_vertices-IsAlike :
    (fuel : ℕ) (c : Consensus) (wave : ℕ) (r : Consensus × List Vertex)
    → get_ordered_vertices fuel c wave ≡ some r
    → IsAlike c r.0
get_ordered_vertices-IsAlike fuel c wave r e =
    elim (get_ordered_vertices-Waved fuel c wave r.0 r.1 e) [
      | no_leader _ same _ ↦ subst (IsAlike c) (sym same) (IsAlike-refl c)
      | too_few _ _ _ same _ ↦ subst (IsAlike c) (sym same) (IsAlike-refl c)
      | decided _ _ _ _ _ _ same ↦ subst (IsAlike c) (sym same) (record {
        node_id = refl;
        current_round = refl;
        vertex_to_broadcast = refl;
        blocks_to_propose = refl;
      })
    ]

output_wave-IsAlike : (fuel : ℕ) (c out : Consensus) → output_wave fuel c ≡ some out → IsAlike c out
unfolding output_wave
output_wave-IsAlike fuel c out e = elim (Bool-cases (is_last_round_in_wave c.state.current_round)) [
  | inl at_end ↦
      let (r, ran, result) =
        bind-eq-some (get_ordered_vertices fuel c (c.state.current_round / max_wave)) _
          (rw (at_end, output_wave) at e) in
      let alike = get_ordered_vertices-IsAlike fuel c (c.state.current_round / max_wave) r ran in
      subst (IsAlike c) (some_eq result) (record {
        node_id = alike.node_id;
        current_round = alike.current_round;
        vertex_to_broadcast = alike.vertex_to_broadcast;
        blocks_to_propose = alike.blocks_to_propose;
      })
  | inr inside ↦ subst (IsAlike c) (some_eq (rw (inside, output_wave) at e)) (IsAlike-refl c)
]

pop_back-none : (bs : List Block) → pop_back bs ≡ none → bs ≡ []
unfolding pop_back
pop_back-none [] e = refl
pop_back-none (x ∷ bs) e = elim (Option-cases (pop_back bs)) [
  | inl n ↦ cc (rw (n, pop_back) at e)
  | inr (p, n) ↦ cc (rw (n, pop_back) at e)
]

pop_back-append :
    (bs rest : List Block) (b : Block) → pop_back bs ≡ some (rest, b) → bs ≡ rest ++ b ∷ []
unfolding pop_back
pop_back-append [] rest b e = cc
pop_back-append (x ∷ bs) rest b e = elim (Option-cases (pop_back bs)) [
  | inl n ↦
      ap (λ r. x ∷ r) (pop_back-none bs n)
      ∙ ap (λ (p : List Block × Block). p.0 ++ p.1 ∷ []) (some_eq (rw (n, pop_back) at e))
  | inr ((r, y), n) ↦
      ap (λ r. x ∷ r) (pop_back-append bs r y n)
      ∙ ap (λ (p : List Block × Block). p.0 ++ p.1 ∷ []) (some_eq (rw (n, pop_back) at e))
]

-- The new vertex proposes the last block.
create_new_vertex-Turned :
    (ext : External) (fuel : ℕ) (c d out : Consensus)
    → is_ready c ≡ true
    → IsAlike c d
    → create_new_vertex ext fuel (next_round d) (next_round d).state.current_round ≡ some out
    → Turned ext c [] out
unfolding create_new_vertex next_round is_ready
create_new_vertex-Turned ext fuel c d out ready alike e =
    elim (Option-cases (pop_back d.blocks_to_propose)) [
      | inl n ↦
          let empty : c.blocks_to_propose ≡ [] =
            sym alike.blocks_to_propose ∙ pop_back-none d.blocks_to_propose n in
          absurd (cc (rw (empty, is_ready) at ready))
      | inr ((rest, block), n) ↦
          let round = (d.state.current_round + 1) % u32_mod in
          let (v, ran, result) =
            bind-eq-some (new_vertex ext fuel (next_round d) round block) _
              (rw (n, create_new_vertex) at e) in
          let (owner, of_round, of_block) =
            new_vertex-IsGrown ext fuel (next_round d) round block v ran in
          let same = sym (some_eq result) in
          proposes v fuel (next_round d) (ap (λ (x : Consensus). x.node_id) same ∙ alike.node_id)
            (ap (λ (x : Consensus). x.state.current_round) same
              ∙ ap (λ r. (r + 1) % u32_mod) alike.current_round)
            (ap (λ (x : Consensus). x.vertex_to_broadcast) same
              ∙ ap (λ vs. vs ++ v ∷ []) alike.vertex_to_broadcast)
            (append-nil c.blocks_to_propose
              ∙ sym alike.blocks_to_propose
              ∙ pop_back-append d.blocks_to_propose rest block n
              ∙ ap (λ b. rest ++ b ∷ []) (sym of_block)
              ∙ ap (λ (x : Consensus). x.blocks_to_propose ++ v.block ∷ []) (sym same))
            (owner ∙ alike.node_id)
            (of_round ∙ ap (λ (x : Consensus). x.state.current_round) (sym same))
            (ap (λ (x : Consensus). x.state.dag) (sym same))
            (ap (λ r. new_vertex ext fuel (next_round d) r v.block)
                (ap (λ (x : Consensus). x.state.current_round) same)
              ∙ ap (new_vertex ext fuel (next_round d) round) of_block
              ∙ ran)
    ]

advance-Turned :
    (ext : External) (fuel : ℕ) (c out : Consensus)
    → advance ext fuel c ≡ some out
    → Turned ext c [] out
unfolding advance
advance-Turned ext fuel c out e = elim (Bool-cases (is_ready c)) [
  | inr stay ↦
      let same = sym (some_eq (rw (stay, advance) at e)) in
      waits (ap (λ (x : Consensus). x.node_id) same)
        (ap (λ (x : Consensus). x.state.current_round) same)
        (ap (λ (x : Consensus). x.vertex_to_broadcast) same)
        (ap (λ (x : Consensus). x.blocks_to_propose) same ∙ sym (append-nil c.blocks_to_propose))
  | inl ready ↦
      let (mid, ran, rest) = bind-eq-some (output_wave fuel c) _ (rw (ready, advance) at e) in
      create_new_vertex-Turned ext fuel c mid out ready (output_wave-IsAlike fuel c mid ran) rest
]

-- What a turn does, it does in one of the two ways.
pub turn-Turned :
    (ext : External) (fuel : ℕ) (c out : Consensus) (buffer : List Vertex) (blocks : List Block)
    → turn ext fuel c buffer blocks ≡ some out
    → Turned ext c blocks out
unfolding turn
turn-Turned ext fuel c out buffer blocks e =
    let c' : Consensus = record c { blocks_to_propose = c.blocks_to_propose ++ blocks } in
    let alike = admit_all-IsAlike c' buffer in
    let front = append-nil (admit_all c' buffer).blocks_to_propose in
    elim (advance-Turned ext fuel (admit_all c' buffer) out e) [
      | waits node round sent left ↦
          waits (node ∙ alike.node_id) (round ∙ alike.current_round)
            (sent ∙ alike.vertex_to_broadcast) (left ∙ front ∙ alike.blocks_to_propose)
      | proposes v fuel' m node round sent left owner of_round graph made ↦
          proposes v fuel' m (node ∙ alike.node_id)
            (round ∙ ap (λ r. (r + 1) % u32_mod) alike.current_round)
            (sent ∙ ap (λ vs. vs ++ v ∷ []) alike.vertex_to_broadcast)
            (sym alike.blocks_to_propose ∙ sym front ∙ left) (owner ∙ alike.node_id) of_round graph
            made
    ]
