-- ===== src/Tests/Commits.antt =====
-- The theorems on waves that two nodes commit, on a run in which the second commits wave 1 and holds the
-- leader of wave 2.
use mathlib.Core.List.Memᴰ
use dag_rider.Prelude.{
  ◌≤◌, ◌<◌, ℕ, ◌≡◌, refl, ap, sym, List, [], ◌∷◌, ◌++◌, Memᴰ, Bool, true, false, some, arith, ◌==◌,
  ◌&&◌, not, Bool-cases, inl, inr, ==→eq, eq→==, ◌∙◌,
}
use dag_rider.Model.Block
use dag_rider.Model.Vertex.{Vertex}
use dag_rider.Model.Vertex
use dag_rider.Model.Committee.{get_nodes_keys, size}
use dag_rider.Model.Committee.Keys.{sort}
use dag_rider.Consensus.Dag.{
  add_roots, insert_vertex, get_vertices, collect_hashes, contains_vertices,
  is_quorum_reached_for_round, is_linked_with_others_in_round,
}
use dag_rider.Consensus.Dag
use dag_rider.Consensus.Protocol.{
  create, local_consensus, get_wave_vertex_leader, get_leaders_to_commit, get_round_for_wave,
  wave_before,
}
use dag_rider.Consensus.System.{IsSent, given, sent}
use dag_rider.Consensus.System.Safety.{Reaches-commits}
use dag_rider.Tests.TwoRuns.{reaches_9}
use dag_rider.Tests.Samples.{reused}
use dag_rider.Tests.TwoNodes.{
  short, two, key, first_1, second_1, first_2, second_2, first_3, second_3, first_4, second_4,
  second_5, after_7, after_9, system_9,
}

-- All that was given or sent.
abbrev all_sent : List Vertex
all_sent =
    (first_1 ∷ second_1 ∷ [])
    ++ (first_2 ∷ first_3 ∷ first_4 ∷ [])
    ++ second_2 ∷ second_3 ∷ second_4 ∷ second_5 ∷ []

lists_sent : (v : Vertex) → IsSent short two system_9 v → Memᴰ v all_sent
unfolding local_consensus create get_nodes_keys Vertex.genesis Vertex.create Vertex.to_json
    Block.to_json Block.transactions_json
lists_sent v (given m) = Memᴰ.append_left _ m
lists_sent v (sent i m) = elim (Bool-cases (2 == i)) [
  | inl second ↦
      Memᴰ.append_right (first_1 ∷ second_1 ∷ [])
        (Memᴰ.append_right (first_2 ∷ first_3 ∷ first_4 ∷ []) (rw second at m))
  | inr other ↦ elim (Bool-cases (1 == i)) [
    | inl first ↦
        Memᴰ.append_right (first_1 ∷ second_1 ∷ []) (Memᴰ.append_left _ (rw (other, first) at m))
    | inr none_else ↦ absurd (Memᴰ.not-nil (rw (other, none_else) at m))
  ]
]

members :
    (i : ℕ) (v : Vertex)
    → Memᴰ v (system_9 i).vertex_to_broadcast
    → Memᴰ (key i) (get_nodes_keys two)
unfolding get_nodes_keys local_consensus create
members i v m = elim (Bool-cases (2 == i)) [
  | inl second ↦ Memᴰ.tail (Memᴰ.head (omega (arith, ==→eq 2 i second)))
  | inr other ↦ elim (Bool-cases (1 == i)) [
    | inl first ↦ Memᴰ.head (omega (arith, ==→eq 1 i first))
    | inr none_else ↦ absurd (Memᴰ.not-nil (rw (other, none_else) at m))
  ]
]

-- Does no vertex of the list have this hash?
abbrev is_new : ℕ → List Vertex → Bool
is_new h [] = true
is_new h (v ∷ vs) = not (h == v.hash) && is_new h vs

abbrev are_distinct : List Vertex → Bool
are_distinct [] = true
are_distinct (v ∷ vs) = is_new v.hash vs && are_distinct vs

is_new_lem : (v : Vertex) (vs : List Vertex) → Memᴰ v vs → is_new v.hash vs ≡ false
is_new_lem v [] m = absurd (Memᴰ.not-nil m)
is_new_lem v (w ∷ vs) m = elim (Memᴰ.cases_cons m) [
  | inl e ↦ let same = eq→== v.hash w.hash (ap (λ (x : Vertex). x.hash) e) in ground (arith, same)
  | inr t ↦ ground (arith, is_new_lem v vs t)
]

are_distinct_lem :
    (v w : Vertex) (vs : List Vertex)
    → are_distinct vs ≡ true
    → Memᴰ v vs
    → Memᴰ w vs
    → v.hash ≡ w.hash
    → v ≡ w
are_distinct_lem v w [] d m n e = absurd (Memᴰ.not-nil m)
are_distinct_lem v w (x ∷ vs) d m n e = elim (Memᴰ.cases_cons m) [
  | inl first ↦ elim (Memᴰ.cases_cons n) [
    | inl also ↦ first ∙ sym also
    | inr later ↦
        let same : x.hash ≡ w.hash = ap (λ (y : Vertex). y.hash) (sym first) ∙ e in
        absurd (ground (arith, is_new_lem w vs later, ap (λ h. is_new h vs) same))
  ]
  | inr later ↦ elim (Memᴰ.cases_cons n) [
    | inl also ↦
        let same : x.hash ≡ v.hash = ap (λ (y : Vertex). y.hash) (sym also) ∙ sym e in
        absurd (ground (arith, is_new_lem v vs later, ap (λ h. is_new h vs) same))
    | inr too ↦ are_distinct_lem v w vs (ground arith) later too e
  ]
]

hashed :
    (v w : Vertex)
    → IsSent short two system_9 v
    → IsSent short two system_9 w
    → v.hash ≡ w.hash
    → v ≡ w
hashed v w a b e = are_distinct_lem v w all_sent refl (lists_sent v a) (lists_sent w b) e

leads_1 : get_wave_vertex_leader after_7 1 ≡ some (some second_1)
unfolding get_wave_vertex_leader get_nodes_keys sort get_round_for_wave size
    is_linked_with_others_in_round Dag.is_strongly_linked Dag.search Dag.scan Vertex.get_all_parents
    Dag.push_newer Dag.get_vertex get_leaders_to_commit wave_before
leads_1 = refl

linked_1 :
    is_linked_with_others_in_round 60 after_7.state.dag second_1 (get_round_for_wave 1 4)
    ≡ some true
unfolding get_wave_vertex_leader get_nodes_keys sort get_round_for_wave size
    is_linked_with_others_in_round Dag.is_strongly_linked Dag.search Dag.scan Vertex.get_all_parents
    Dag.push_newer Dag.get_vertex get_leaders_to_commit wave_before
linked_1 = refl

leads_2 : get_wave_vertex_leader after_9 2 ≡ some (some second_5)
unfolding get_wave_vertex_leader get_nodes_keys sort get_round_for_wave size
    is_linked_with_others_in_round Dag.is_strongly_linked Dag.search Dag.scan Vertex.get_all_parents
    Dag.push_newer Dag.get_vertex get_leaders_to_commit wave_before
leads_2 = refl

commits_2 :
    get_leaders_to_commit 60 after_9 (wave_before 2) second_5 ≡ some (second_5 ∷ second_1 ∷ [])
unfolding get_wave_vertex_leader get_nodes_keys sort get_round_for_wave size
    is_linked_with_others_in_round Dag.is_strongly_linked Dag.search Dag.scan Vertex.get_all_parents
    Dag.push_newer Dag.get_vertex get_leaders_to_commit wave_before
commits_2 = refl

apart : (i j : ℕ) → key i ≡ key j → i ≡ j
apart i j e = omega (arith, e)

Reaches-commits_example :
    (between : ℕ) × (x : Vertex) × (rest : List Vertex) × (second_5 ∷ second_1 ∷ []
      ≡ second_5 ∷ x ∷ rest)
    × (1 ≤ between)
    × (between < 2)
    × (get_wave_vertex_leader after_9 between ≡ some (some x))
    × (between ≡ 1 → x ≡ second_1)
unfolding size
Reaches-commits_example =
    Reaches-commits short two key apart (omega arith) (omega arith) system_9 9 (λ i. reused)
      reaches_9 (omega arith) members hashed 1 2 1 2 60 60 second_1 second_5
      (second_5 ∷ second_1 ∷ []) (omega arith) (omega arith) (omega arith) leads_1 linked_1 leads_2
      commits_2
