-- ===== src/Consensus/Protocol/Delivery/Exact.antt =====
-- `orderVertices` as a whole (consensus/consensus.cpp, lines 136 to 157): which vertices it puts
-- out, and how often.
use mathlib.Core.List.Memᴰ
use mathlib.Core.List.{reverse, reverse-cons}
use dag_rider.Prelude.{
  ℕ, ◌<◌, ◌≡◌, refl, inl, inr, List, [], ◌∷◌, Memᴰ, true, some, arith, bind-eq-some, some_eq, subst,
  sym, All-mem, ap, ◌≢◌,
}
use dag_rider.Model.Vertex.{Vertex}
use dag_rider.Consensus.State.{contains}
use dag_rider.Consensus.Dag.{Dag}
use dag_rider.Consensus.Dag.Search.{LinkPath}
use dag_rider.Consensus.Dag.Turns.{IsLayered, IsLayeredDag}
use dag_rider.Consensus.Dag.Links.{Ancestor, Ancestor-lt}
use dag_rider.Consensus.Protocol.{Consensus, Ordering, deliver_graph, order_loop, order_vertices}
use dag_rider.Consensus.Protocol.Delivery.{hashes, IsDistinct, IsSound}
use dag_rider.Consensus.Protocol.Delivery.Loops.{InGraph, graph-Covers, graph-IsSound}

module _ (dag : Dag) where
  -- What one of the leaders calls for: a vertex of the graph that is newer than the leader, from
  -- which a path of parents leads to the leader.
  pub record CalledFor (leaders : List Vertex) (v : Vertex) : Type 0 where
    pub leader : Vertex
    pub among : Memᴰ leader leaders
    pub in_graph : InGraph dag.graph v
    pub newer : leader.round < v.round
    pub path : LinkPath dag leader v

module _ (fuel : ℕ) (dag : Dag) where
  loop-IsSound :
      (P : Vertex → Type 0) (leaders : List Vertex) (o o' : Ordering)
      → order_loop fuel dag leaders o ≡ some o'
      → ((v : Vertex) → CalledFor dag leaders v → P v)
      → IsSound P o
      → IsSound P o'
  unfolding order_loop
  loop-IsSound P [] o o' e h s = subst (IsSound P) (some_eq e) s
  loop-IsSound P (l ∷ leaders) o o' e h s =
      let (p, first, rest) = bind-eq-some (deliver_graph fuel dag l dag.graph o) _ e in
      loop-IsSound P leaders p o' rest
        (λ v c. h v (record {
          leader = c.leader;
          among = Memᴰ.tail c.among;
          in_graph = c.in_graph;
          newer = c.newer;
          path = c.path;
        }))
        (graph-IsSound fuel dag l P dag.graph o p first
          (λ v g lt path.
            h v (record {
              leader = l;
              among = Memᴰ.head refl;
              in_graph = g;
              newer = lt;
              path = path;
            }))
          s)

  loop-keeps :
      (leaders : List Vertex) (o o' : Ordering) (h : ℕ)
      → order_loop fuel dag leaders o ≡ some o'
      → contains o.delivered h ≡ true
      → contains o'.delivered h ≡ true
  unfolding order_loop
  loop-keeps [] o o' h e c = rw (← some_eq e) c
  loop-keeps (l ∷ leaders) o o' h e c =
      let (p, first, rest) = bind-eq-some (deliver_graph fuel dag l dag.graph o) _ e in
      loop-keeps leaders p o' h rest ((graph-Covers fuel dag l dag.graph o p first).keeps h c)

  loop-covers :
      (leaders : List Vertex) (o o' : Ordering) (l v : Vertex)
      → order_loop fuel dag leaders o ≡ some o'
      → Memᴰ l leaders
      → InGraph dag.graph v
      → l.round < v.round
      → LinkPath dag l v
      → contains o'.delivered v.hash ≡ true
  unfolding order_loop
  loop-covers [] o o' l v e m g lt path = absurd (Memᴰ.not-nil m)
  loop-covers (k ∷ leaders) o o' l v e m g lt path =
      let (p, first, rest) = bind-eq-some (deliver_graph fuel dag k dag.graph o) _ e in
      elim (Memᴰ.cases_cons m) [
        | inl same ↦ loop-keeps leaders p o' v.hash rest (
            (graph-Covers fuel dag k dag.graph o p first).covers v g (rw (← same) lt)
              (rw (← same) path))
        | inr later ↦ loop-covers leaders p o' l v rest later g lt path
      ]

mem-reverse : {a : Vertex} (xs : List Vertex) → Memᴰ a (reverse xs) → Memᴰ a xs
mem-reverse [] m = m
mem-reverse {a} (x ∷ xs) m =
    elim (Memᴰ.append_cases (reverse xs) (subst (Memᴰ a) (reverse-cons x xs) m)) [
      | inl before ↦ Memᴰ.tail (mem-reverse xs before)
      | inr last ↦ Memᴰ.head (Memᴰ.eq_of_singleton last)
    ]

mem-reverse_of : {a : Vertex} (xs : List Vertex) → Memᴰ a xs → Memᴰ a (reverse xs)
mem-reverse_of {a} [] m = m
mem-reverse_of {a} (x ∷ xs) m = elim (Memᴰ.cases_cons m) [
  | inl e ↦ subst (Memᴰ a) (sym (reverse-cons x xs)) (Memᴰ.append_right (reverse xs) (Memᴰ.head e))
  | inr later ↦
      subst (Memᴰ a) (sym (reverse-cons x xs)) (Memᴰ.append_left _ (mem-reverse_of xs later))
]

-- When `orderVertices` returns, no hash is put out twice; every vertex put out is one of the graph,
-- in a round from 1 on, newer than some leader and with a path of parents to it; and of every such
-- vertex the hash is put out.
pub order_vertices_exact :
    (fuel : ℕ) (c : Consensus) (leaders out : List Vertex)
    → order_vertices fuel c leaders ≡ some out
    → IsDistinct (hashes out)
      × ((v : Vertex) → Memᴰ v out → CalledFor c.state.dag leaders v)
      × ((v : Vertex) → CalledFor c.state.dag leaders v → contains (hashes out) v.hash ≡ true)
unfolding order_vertices
order_vertices_exact fuel c leaders out e =
    let dag = c.state.dag in
    let start : Ordering = record { ordered = []; delivered = [] } in
    let (o, ran, result) = bind-eq-some (order_loop fuel dag (reverse leaders) start) _ e in
    let sound =
      loop-IsSound fuel dag (CalledFor dag leaders) (reverse leaders) start o ran
        (λ v q. record {
          leader = q.leader;
          among = mem-reverse leaders q.among;
          in_graph = q.in_graph;
          newer = q.newer;
          path = q.path;
        })
        (record { synced = refl; distinct = tt; each = tt }) in
    let same : o.ordered ≡ out = some_eq result in
    rw (← same) (
      rw (← sound.synced) sound.distinct,
      λ v m. All-mem (CalledFor dag leaders) o.ordered sound.each m,
      λ v q. rw (← sound.synced) (
          loop-covers fuel dag (reverse leaders) start o q.leader v ran
            (mem-reverse_of leaders q.among) q.in_graph q.newer q.path),
    )

-- In a layered graph, nothing of the causal history of a leader is put out for that leader, nor is
-- the leader: what is put out is newer.
pub order_vertices-misses_history :
    (fuel : ℕ) (c : Consensus) (leader : Vertex) (out : List Vertex)
    → IsLayeredDag c.state.dag
    → IsLayered leader
    → order_vertices fuel c (leader ∷ []) ≡ some out
    → (v : Vertex) → Memᴰ v out
    → (v ≢ leader) × (¬ Ancestor c.state.dag v.hash v.round leader)
order_vertices-misses_history fuel c leader out ok layered e v m =
    let q = (order_vertices_exact fuel c (leader ∷ []) out e).1 v m in
    let newer : leader.round < v.round =
      subst (λ (l : Vertex). l.round < v.round) (Memᴰ.eq_of_singleton q.among) q.newer in
    (
      λ same. absurd (omega (arith, ap (λ (x : Vertex). x.round) same)),
      λ history. absurd (omega (arith, Ancestor-lt c.state.dag ok layered history)),
    )
