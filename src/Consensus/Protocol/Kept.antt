-- ===== src/Consensus/Protocol/Kept.antt =====
-- What no turn of the loop changes (consensus/consensus.cpp, lines 45 to 91): the committee, the size of
-- a quorum.
use dag_rider.Prelude.{
  ℕ, ◌/◌, ◌≡◌, refl, ◌∙◌, sym, subst, bind-eq-some, some_eq, List, [], ◌∷◌, ◌++◌, ◌&&◌, some, leb,
  Bool-cases, Option-cases, inl, inr,
}
use dag_rider.Model.External.{External}
use dag_rider.Model.Block.{Block}
use dag_rider.Model.Vertex.{Vertex}
use dag_rider.Consensus.Dag.{insert_vertex, contains_vertices}
use dag_rider.Consensus.Protocol.{
  Consensus, pop_back, new_vertex, create_new_vertex, get_ordered_vertices, is_last_round_in_wave,
  max_wave,
}
use dag_rider.Consensus.Protocol.Outcomes.{no_leader, too_few, decided, get_ordered_vertices-Waved}
use dag_rider.Consensus.Protocol.Loop.{
  admit, admit_all, output_wave, next_round, is_ready, advance, turn,
}

pub record IsKept (c d : Consensus) : Type 0 where
  pub committee : d.committee ≡ c.committee
  pub quorum : d.state.dag.min_quorum ≡ c.state.dag.min_quorum

IsKept-refl : (c : Consensus) → IsKept c c
IsKept-refl c = record { committee = refl; quorum = refl }

IsKept-trans : (b c d : Consensus) → IsKept b c → IsKept c d → IsKept b d
IsKept-trans b c d g h = record {
  committee = h.committee ∙ g.committee;
  quorum = h.quorum ∙ g.quorum;
}

admit-IsKept : (c : Consensus) (v : Vertex) → IsKept c (admit c v)
unfolding admit insert_vertex
admit-IsKept c v =
    elim (Bool-cases
      (leb v.round c.state.current_round && contains_vertices c.state.dag v.parents)) [
        | inl e ↦ rw (e, admit) (record { committee = refl; quorum = refl })
        | inr e ↦ rw (e, admit) (IsKept-refl c)
      ]

admit_all-IsKept : (c : Consensus) (buffer : List Vertex) → IsKept c (admit_all c buffer)
unfolding admit_all
admit_all-IsKept c [] = IsKept-refl c
admit_all-IsKept c (v ∷ buffer) =
    IsKept-trans c (admit c v) _ (admit-IsKept c v) (admit_all-IsKept (admit c v) buffer)

get_ordered_vertices-IsKept :
    (fuel : ℕ) (c : Consensus) (wave : ℕ) (r : Consensus × List Vertex)
    → get_ordered_vertices fuel c wave ≡ some r
    → IsKept c r.0
get_ordered_vertices-IsKept fuel c wave r e =
    elim (get_ordered_vertices-Waved fuel c wave r.0 r.1 e) [
      | no_leader _ same _ ↦ subst (IsKept c) (sym same) (IsKept-refl c)
      | too_few _ _ _ same _ ↦ subst (IsKept c) (sym same) (IsKept-refl c)
      | decided _ _ _ _ _ _ same ↦
          subst (IsKept c) (sym same) (record { committee = refl; quorum = refl })
    ]

output_wave-IsKept : (fuel : ℕ) (c out : Consensus) → output_wave fuel c ≡ some out → IsKept c out
unfolding output_wave
output_wave-IsKept fuel c out e = elim (Bool-cases (is_last_round_in_wave c.state.current_round)) [
  | inl at_end ↦
      let (r, ran, result) =
        bind-eq-some (get_ordered_vertices fuel c (c.state.current_round / max_wave)) _
          (rw (at_end, output_wave) at e) in
      let kept = get_ordered_vertices-IsKept fuel c (c.state.current_round / max_wave) r ran in
      subst (IsKept c) (some_eq result)
        (record { committee = kept.committee; quorum = kept.quorum })
  | inr inside ↦ subst (IsKept c) (some_eq (rw (inside, output_wave) at e)) (IsKept-refl c)
]

create_new_vertex-IsKept :
    (ext : External) (fuel : ℕ) (c out : Consensus) (round : ℕ)
    → create_new_vertex ext fuel c round ≡ some out
    → IsKept c out
unfolding create_new_vertex
create_new_vertex-IsKept ext fuel c out round e =
    elim (Option-cases (pop_back c.blocks_to_propose)) [
      | inl n ↦ subst (IsKept c) (some_eq (rw (n, create_new_vertex) at e)) (IsKept-refl c)
      | inr ((rest, block), n) ↦
          let (v, _, result) =
            bind-eq-some (new_vertex ext fuel c round block) _ (rw (n, create_new_vertex) at e) in
          subst (IsKept c) (some_eq result) (record { committee = refl; quorum = refl })
    ]

advance-IsKept :
    (ext : External) (fuel : ℕ) (c out : Consensus) → advance ext fuel c ≡ some out → IsKept c out
unfolding advance next_round
advance-IsKept ext fuel c out e = elim (Bool-cases (is_ready c)) [
  | inr stay ↦ subst (IsKept c) (some_eq (rw (stay, advance) at e)) (IsKept-refl c)
  | inl ready ↦
      let (mid, ran, rest) = bind-eq-some (output_wave fuel c) _ (rw (ready, advance) at e) in
      let made =
        create_new_vertex-IsKept ext fuel (next_round mid) out (next_round mid).state.current_round
          rest in
      IsKept-trans c mid out (output_wave-IsKept fuel c mid ran)
        (record { committee = made.committee; quorum = made.quorum })
]

pub turn-IsKept :
    (ext : External) (fuel : ℕ) (c d : Consensus) (buffer : List Vertex) (blocks : List Block)
    → turn ext fuel c buffer blocks ≡ some d
    → IsKept c d
unfolding turn
turn-IsKept ext fuel c d buffer blocks e =
    let c' : Consensus = record c { blocks_to_propose = c.blocks_to_propose ++ blocks } in
    let start = admit_all-IsKept c' buffer in
    IsKept-trans c (admit_all c' buffer) d
      (record { committee = start.committee; quorum = start.quorum })
      (advance-IsKept ext fuel (admit_all c' buffer) d e)
