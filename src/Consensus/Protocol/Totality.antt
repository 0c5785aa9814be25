-- ===== src/Consensus/Protocol/Totality.antt =====
-- The protocol's operations return: in a well-formed graph every search that they make ends.
pub mod Steps
pub mod Turn
use mathlib.Core.List.Memᴰ
use dag_rider.Prelude.{
  ℕ, zero, suc, ◌+◌, ◌≤◌, ◌<◌, ◌≡◌, refl, inl, inr, List, [], ◌∷◌, ◌++◌, Memᴰ, Bool, true, false,
  Option, none, some, arith, ltb, if◌then◌else◌, Bool-cases, ◌>>=◌, Settles, Settles-some,
  Settles-bind, Settles-Bool, Settles-if, All, ◌%◌, ◌∙◌,
}
use dag_rider.Containers.{values}
use dag_rider.Containers.Ordered
use dag_rider.Model.Vertex.{Vertex, add_parent}
use dag_rider.Consensus.State.{contains, insert}
use dag_rider.Consensus.Dag.{
  Dag, Round, bucket, u32_mod, search, is_linked, is_strongly_linked, count_linked,
  is_linked_with_others_in_round,
}
use dag_rider.Consensus.Dag.Turns.{IsLayered, IsLayeredDag, cost, search-ends, search-more}
use dag_rider.Consensus.Protocol.{
  Ordering, deliver, deliver_round, deliver_graph, order_loop, link_round, weak_edges_loop,
}

module _ (dag : Dag) (ok : IsLayeredDag dag) where
  search-Settles :
      (oldest : Vertex) (stack : List Vertex)
      → All IsLayered stack
      → Settles (λ fuel. search fuel dag oldest stack)
  search-Settles oldest stack layered =
      let (b, e) = search-ends dag ok (cost dag stack) oldest stack layered (omega arith) in
      record {
        bound = cost dag stack;
        result = b;
        settled = λ fuel h. search-more (cost dag stack) fuel dag oldest stack b e h;
      }

  pub is_linked-Settles :
      (newest oldest : Vertex)
      → IsLayered newest
      → Settles (λ fuel. is_linked fuel dag newest oldest)
  unfolding is_linked
  is_linked-Settles newest oldest layered = elim (Bool-cases (ltb oldest.round newest.round)) [
    | inl newer ↦
        let s = search-Settles oldest (newest ∷ []) (layered, tt) in
        record {
          bound = s.bound;
          result = s.result;
          settled = λ fuel h. rw (newer, is_linked) (s.settled fuel h);
        }
    | inr older ↦ record {
      bound = 0;
      result = false;
      settled = λ fuel h. rw (older, is_linked) refl;
    }
  ]

  pub is_strongly_linked-Settles :
      (newest oldest : Vertex)
      → IsLayered newest
      → Settles (λ fuel. is_strongly_linked fuel dag newest oldest)
  unfolding is_linked is_strongly_linked
  is_strongly_linked-Settles newest oldest layered = is_linked-Settles newest oldest layered

  count_linked-Settles :
      (vertex : Vertex) (vs : List Vertex) (weight : ℕ)
      → All IsLayered vs
      → Settles (λ fuel. count_linked fuel dag vertex vs weight)
  unfolding count_linked
  count_linked-Settles vertex [] weight layered = Settles-some weight
  count_linked-Settles vertex (v ∷ vs) weight layered =
      let s = is_strongly_linked-Settles v vertex layered.0 in
      Settles-bind _ _ s (count_linked-Settles vertex vs _ layered.1)

  pub is_linked_with_others_in_round-Settles :
      (vertex : Vertex) (round : ℕ)
      → All IsLayered (values (bucket dag round))
      → Settles (λ fuel. is_linked_with_others_in_round fuel dag vertex round)
  unfolding is_linked_with_others_in_round
  is_linked_with_others_in_round-Settles vertex round layered =
      Settles-bind _ _ (count_linked-Settles vertex (values (bucket dag round)) 0 layered)
        (Settles-some _)

  deliver-Settles :
      (leader v : Vertex) (o : Ordering)
      → IsLayered v
      → Settles (λ fuel. deliver fuel dag leader v o)
  unfolding deliver
  deliver-Settles leader v o layered =
      Settles-Bool (contains o.delivered v.hash) _ _ (Settles-some o)
        (Settles-bind _ _ (is_linked-Settles v leader layered) (Settles-some _))

  deliver_round-Settles :
      (leader : Vertex) (vs : List Vertex) (o : Ordering)
      → All IsLayered vs
      → Settles (λ fuel. deliver_round fuel dag leader vs o)
  unfolding deliver_round
  deliver_round-Settles leader [] o layered = Settles-some o
  deliver_round-Settles leader (v ∷ vs) o layered =
      Settles-bind _ _ (deliver-Settles leader v o layered.0)
        (deliver_round-Settles leader vs _ layered.1)

  deliver_graph-Settles :
      (leader : Vertex) (graph : List (ℕ × Round)) (o : Ordering)
      → All (λ (e : ℕ × Round). All IsLayered (values e.1)) graph
      → Settles (λ fuel. deliver_graph fuel dag leader graph o)
  unfolding deliver_graph
  deliver_graph-Settles leader [] o layered = Settles-some o
  deliver_graph-Settles leader ((r, vs) ∷ graph) o layered =
      Settles-bind _ _
        (Settles-if (ltb 0 r) _ _ (deliver_round-Settles leader (values vs) o layered.0)
          (Settles-some o))
        (deliver_graph-Settles leader graph _ layered.1)

  pub order_loop-Settles :
      (leaders : List Vertex) (o : Ordering)
      → All (λ (e : ℕ × Round). All IsLayered (values e.1)) dag.graph
      → Settles (λ fuel. order_loop fuel dag leaders o)
  unfolding order_loop
  order_loop-Settles [] o layered = Settles-some o
  order_loop-Settles (l ∷ leaders) o layered =
      Settles-bind _ _ (deliver_graph-Settles l dag.graph o layered)
        (order_loop-Settles leaders _ layered)

  add_parent-IsLayered :
      (b : Bool) (vertex : Vertex) (h r : ℕ)
      → r < vertex.round
      → IsLayered vertex
      → IsLayered (if b then vertex else add_parent vertex h r)
        × ((if b then vertex else add_parent vertex h r).round ≡ vertex.round)
  unfolding add_parent
  add_parent-IsLayered true vertex h r lt layered = (layered, refl)
  add_parent-IsLayered false vertex h r lt layered =
      (Ordered.All-insert (λ (e : ℕ × ℕ). e.1 < vertex.round) h r vertex.parents lt layered, refl)

  -- With the result, what the next round starts from.
  abbrev Growing : ℕ → (ℕ → Option Vertex) → Type 0
  Growing round f = (s : Settles f) × IsLayered s.result × (s.result.round ≡ round)

  link_round-Settles :
      (round r : ℕ) (vs : List Vertex) (vertex : Vertex)
      → vertex.round ≡ round
      → r < round
      → IsLayered vertex
      → Growing round (λ fuel. link_round fuel dag r vs vertex)
  unfolding link_round Settles-some Settles-bind
  link_round-Settles round r [] vertex same lt layered = (Settles-some vertex, layered, same)
  link_round-Settles round r (v ∷ vs) vertex same lt layered =
      let s = is_linked-Settles vertex v layered in
      let (next, kept) = add_parent-IsLayered s.result vertex v.hash r (omega arith) layered in
      let grown : Vertex = if s.result then vertex else add_parent vertex v.hash r in
      let (t, last_layered, last_same) =
        link_round-Settles round r vs grown (kept ∙ same) lt next in
      (Settles-bind _ _ s t, last_layered, last_same)

  pub weak_edges_loop-Settles :
      (round limit : ℕ) (vertex : Vertex)
      → vertex.round ≡ round
      → limit < round
      → IsLayered vertex
      → Growing round (λ fuel. weak_edges_loop fuel dag limit vertex)
  unfolding weak_edges_loop Settles-some Settles-bind
  weak_edges_loop-Settles round zero vertex same lt layered = (Settles-some vertex, layered, same)
  weak_edges_loop-Settles round (suc limit) vertex same lt layered =
      let (s, next, kept) =
        link_round-Settles round (suc limit) (values (bucket dag (suc limit))) vertex same lt
          layered in
      let (t, last_layered, last_same) =
        weak_edges_loop-Settles round limit s.result kept (omega arith) next in
      (Settles-bind _ _ s t, last_layered, last_same)
