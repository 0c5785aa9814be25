-- ===== src/Consensus/Protocol/Outcomes.antt =====
-- The branches of `getOrderedVertices` (consensus/consensus.cpp, lines 105 to 120).

use dag_rider.Prelude.{
  ℕ, ◌≡◌, sym, ap, ◌∙◌, inl, inr, List, [], true, false, some, none, bind-eq-some, some_eq,
  Option-cases, Bool-cases,
}
use dag_rider.Model.Vertex.{Vertex}
use dag_rider.Consensus.Dag.{is_linked_with_others_in_round}
use dag_rider.Consensus.Protocol.{
  Consensus, max_wave, wave_before, get_round_for_wave, get_wave_vertex_leader,
  get_leaders_to_commit, order_vertices, get_ordered_vertices,
}

-- What `getOrderedVertices` does: no leader, or too few vertices linked to it, and the node stays; or
-- the wave is decided, and the ordering of the leaders that are committed is put out.
pub data Waved (fuel : ℕ) (c : Consensus) (wave : ℕ) (c' : Consensus) (out : List Vertex)
    : Type 0 where
  no_leader :
      get_wave_vertex_leader c wave ≡ some none → c' ≡ c → out ≡ [] → Waved fuel c wave c' out
  too_few :
      (l : Vertex)
      → get_wave_vertex_leader c wave ≡ some (some l)
      → is_linked_with_others_in_round fuel c.state.dag l (get_round_for_wave wave max_wave)
        ≡ some false
      → c' ≡ c
      → out ≡ []
      → Waved fuel c wave c' out
  decided :
      (l : Vertex) (ls : List Vertex)
      → get_wave_vertex_leader c wave ≡ some (some l)
      → is_linked_with_others_in_round fuel c.state.dag l (get_round_for_wave wave max_wave)
        ≡ some true
      → get_leaders_to_commit fuel c (wave_before wave) l ≡ some ls
      → order_vertices fuel c ls ≡ some out
      → c' ≡ record c { decided_wave = wave }
      → Waved fuel c wave c' out

pub get_ordered_vertices-Waved :
    (fuel : ℕ) (c : Consensus) (wave : ℕ) (c' : Consensus) (out : List Vertex)
    → get_ordered_vertices fuel c wave ≡ some (c', out)
    → Waved fuel c wave c' out
unfolding get_ordered_vertices
get_ordered_vertices-Waved fuel c wave c' out e =
    let (o, found, rest) = bind-eq-some (get_wave_vertex_leader c wave) _ e in
    elim (Option-cases o) [
      | inl nobody ↦
          let same = some_eq (rw nobody at rest) in
          no_leader (found ∙ ap some nobody) (sym (ap (λ (x : Consensus × List Vertex). x.0) same))
            (sym (ap (λ (x : Consensus × List Vertex). x.1) same))
      | inr (l, someone) ↦
          let round = get_round_for_wave wave max_wave in
          let (b, enough, more) =
            bind-eq-some (is_linked_with_others_in_round fuel c.state.dag l round) _
              (rw someone at rest) in
          elim (Bool-cases b) [
            | inr few ↦
                let same = some_eq (rw few at more) in
                too_few l (found ∙ ap some someone) (enough ∙ ap some few)
                  (sym (ap (λ (x : Consensus × List Vertex). x.0) same))
                  (sym (ap (λ (x : Consensus × List Vertex). x.1) same))
            | inl many ↦
                let (ls, chosen, order) =
                  bind-eq-some (get_leaders_to_commit fuel c (wave_before wave) l) _
                    (rw many at more) in
                let (vs, ordered, result) = bind-eq-some (order_vertices fuel c ls) _ order in
                let same = some_eq result in
                decided l ls (found ∙ ap some someone) (enough ∙ ap some many) chosen
                  (ordered ∙ ap (λ (x : Consensus × List Vertex). some x.1) same)
                  (sym (ap (λ (x : Consensus × List Vertex). x.0) same))
          ]
    ]
