-- ===== src/Tests/Graphs.antt =====
-- The theorems on committees, vertices and graphs.
use mathlib.Core.List.Memᴰ
use dag_rider.Prelude.{
  ℕ, ◌<◌, ◌≡◌, refl, ◌↔◌, [], ◌∷◌, Memᴰ, Bool, true, none, some, arith, subst, All-mem,
}
use dag_rider.Model.Vertex.{Vertex, get_strong_parents, is_previous_round}
use dag_rider.Consensus.Dag.{
  is_linked, is_strongly_linked, create, insert_vertex, get_vertex, add_roots,
}
use dag_rider.Consensus.Dag.Search.{LinkPath}
use dag_rider.Consensus.Dag.Turns.{turns}
use dag_rider.Consensus.Dag.Lookup.{get_vertex-All}
use dag_rider.Consensus.Dag.Insertion.{
  IsWellFormed, IsWellFormed-IsLayeredDag, insert_vertex-IsWellFormed,
}
use dag_rider.Consensus.Dag.Links.{is_linked_decides, is_linked_iff_Ancestor, Ancestor, NamesRound}
use dag_rider.Consensus.Dag.LinkFaults.{is_strongly_linked-weak, is_linked-self_parent}
use dag_rider.Containers.Ordered
use dag_rider.Containers.Hashed
use dag_rider.Tests.Samples.{
  vertex, one_round, one_round-IsWellFormed, one_wave, one_wave-IsWellFormed, all_of, grow,
}

is_linked_decides_example :
    (b : Bool) × (is_linked 40 one_wave (vertex 41 10 4 (all_of 3)) (vertex 12 20 1 []) ≡ some b)
    × ((b ≡ true) ↔ ((1 < 4) × LinkPath one_wave (vertex 12 20 1 []) (vertex 41 10 4 (all_of 3))))
unfolding grow insert_vertex create turns get_vertex Ordered.insert Hashed.insert
is_linked_decides_example =
    is_linked_decides one_wave (IsWellFormed-IsLayeredDag one_wave one_wave-IsWellFormed) 40
      (vertex 41 10 4 (all_of 3)) (vertex 12 20 1 []) (omega arith) (omega arith)

abbrev tip : Vertex
tip = vertex 41 10 4 (all_of 3)

abbrev root : Vertex
root = vertex 12 20 1 []

-- A vertex of round 4 whose one parent, of round 1, is weak.
abbrev loose : Vertex
loose = vertex 44 40 4 ((12, 1) ∷ [])

-- A vertex in the place of the one with hash 11 that is its own parent.
abbrev cyclic : Vertex
cyclic = vertex 21 10 2 ((21, 2) ∷ [])

-- The vertices of the first round have no parents, so only the new vertex names `root`.
by_young : (r : ℕ) → Memᴰ (12, r) (all_of 1) → r ≡ 1
by_young r m = All-mem (λ (e : ℕ × ℕ). e.1 ≡ 1) (all_of 1) (omega arith) m

root_named : NamesRound one_round (vertex 21 10 2 (all_of 1)) root
unfolding create add_roots Ordered.insert Hashed.insert
root_named = record {
  by_newest = by_young;
  by_held = λ h k r p held named. absurd (
      Memᴰ.not-nil (
        subst (Memᴰ (12, r))
          (get_vertex-All (λ v. v.parents ≡ []) one_round ((refl, (refl, (refl, (refl, tt)))), tt) h
            k p held)
          named));
}

is_linked_iff_Ancestor_example :
    (is_linked 40 one_round (vertex 21 10 2 (all_of 1)) root ≡ some true)
    ↔ Ancestor one_round 12 1 (vertex 21 10 2 (all_of 1))
unfolding create turns get_vertex add_roots Ordered.insert Hashed.insert
is_linked_iff_Ancestor_example =
    is_linked_iff_Ancestor one_round (IsWellFormed-IsLayeredDag one_round one_round-IsWellFormed) 40
      (vertex 21 10 2 (all_of 1)) root (omega arith) (omega arith) root_named

is_strongly_linked-weak_example : is_strongly_linked 1 one_wave loose root ≡ some true
unfolding get_strong_parents is_previous_round
is_strongly_linked-weak_example =
    (is_strongly_linked-weak 0 one_wave loose root 1 (omega arith) (Memᴰ.head refl) refl).0

is_linked-self_parent_example : is_linked 100 (insert_vertex one_wave cyclic) cyclic root ≡ none
unfolding grow insert_vertex create get_vertex Ordered.insert Hashed.insert
is_linked-self_parent_example =
    (is_linked-self_parent one_wave cyclic (vertex 21 10 2 (all_of 1)) root refl refl refl
        (omega arith) (omega arith)).1
      100

insert_vertex-IsWellFormed_example : IsWellFormed (insert_vertex one_wave tip)
insert_vertex-IsWellFormed_example =
    insert_vertex-IsWellFormed one_wave tip one_wave-IsWellFormed (omega arith)
