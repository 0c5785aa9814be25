-- ===== src/Consensus/Dag/SameGraph/Rounds.antt =====
-- The rounds of two graphs (consensus/dag.hpp, line 28) compared as lists, and the vertices of one.
use mathlib.Core.List.Memᴰ
use mathlib.Core.List.{Permᴰ}
use dag_rider.Prelude.{ℕ, ◌≡◌, sym, inl, inr, List, [], ◌∷◌, ◌++◌, Memᴰ, ◌==◌, Bool-cases}
use dag_rider.Containers.{find, values}
use dag_rider.Model.Vertex.{Vertex}
use dag_rider.Consensus.Dag.{Round, vertices_of}

-- The rounds in step, and in each the same entries in any order.
abbrev pub AreSameRounds : List (ℕ × Round) → List (ℕ × Round) → Type 0
AreSameRounds [] [] = Unit
AreSameRounds [] (_ ∷ _) = ⊥
AreSameRounds (_ ∷ _) [] = ⊥
AreSameRounds ((r, vs) ∷ g) ((k, ws) ∷ h) = (r ≡ k) × Permᴰ vs ws × AreSameRounds g h

pub AreSameRounds-find :
    (r : ℕ) (g h : List (ℕ × Round))
    → AreSameRounds g h
    → Permᴰ (vertices_of (find r g)) (vertices_of (find r h))
AreSameRounds-find r [] [] s = Permᴰ.nil
AreSameRounds-find r [] (_ ∷ _) s = absurd s
AreSameRounds-find r (_ ∷ _) [] s = absurd s
AreSameRounds-find r ((j, vs) ∷ g) ((k, ws) ∷ h) s = elim (Bool-cases (j == r)) [
  | inl same ↦ rw (sym s.0) (rw same s.1)
  | inr differs ↦ rw (sym s.0) (rw differs (AreSameRounds-find r g h s.2))
]

-- All vertices of the graph, one round after another.
abbrev pub all_vertices : List (ℕ × Round) → List Vertex
all_vertices [] = []
all_vertices ((r, vs) ∷ g) = values vs ++ all_vertices g

pub mem-all_vertices :
    (r : ℕ) (v : Vertex) (g : List (ℕ × Round))
    → Memᴰ v (values (vertices_of (find r g)))
    → Memᴰ v (all_vertices g)
mem-all_vertices r v [] m = m
mem-all_vertices r v ((j, vs) ∷ g) m = elim (Bool-cases (j == r)) [
  | inl same ↦ Memᴰ.append_left _ (rw same at m)
  | inr differs ↦ Memᴰ.append_right (values vs) (mem-all_vertices r v g (rw differs at m))
]
