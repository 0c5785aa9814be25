-- ===== src/Model/Vertex/Parents.antt =====
-- Strong and weak parents: vertex.cpp, lines 68 to 97.
use dag_rider.Prelude.{
  ℕ, ◌<◌, suc, ◌≡◌, refl, ◌↔◌, List, [], ◌∷◌, true, false, some, none, arith, if◌then◌else◌,
}
use dag_rider.Containers.{find, IsKeyed}
use dag_rider.Containers.Ordered
use dag_rider.Model.Vertex.{
  Vertex, u64_mod, is_previous_round, collect_strong, get_strong_parents, is_weak_parent,
}

-- On rounds that do not wrap, the previous round is the one below.
pub is_previous_round_iff :
    (v : Vertex) (r : ℕ)
    → 0 < v.round
    → v.round < u64_mod
    → r < u64_mod
    → (is_previous_round v r ≡ true) ↔ (v.round ≡ suc r)
unfolding is_previous_round
is_previous_round_iff v r low high small = ground arith

find-collect_strong :
    (v : Vertex) (h : ℕ) (ps acc : List (ℕ × ℕ))
    → IsKeyed ps
    → find h (collect_strong v ps acc) ≡ (elim (find h ps) [
      | none ↦ find h acc
      | some r ↦ if is_previous_round v r then some r else find h acc
    ])
unfolding collect_strong
find-collect_strong v h [] acc k = refl
find-collect_strong v h ((j, r) ∷ ps) acc k = ground (
  arith,
  find-collect_strong v h ps (if is_previous_round v r then Ordered.insert j r acc else acc) k.1,
  Ordered.find-insert j h r acc,
)

-- Every parent is either strong or weak: it is a strong parent, under its own round, exactly if it
-- is not a weak one, and what is no parent is neither.
pub strong_or_weak :
    (v : Vertex) (h : ℕ)
    → IsKeyed v.parents
    → ((find h v.parents ≡ none)
        → (find h (get_strong_parents v) ≡ none) × (is_weak_parent v h ≡ false))
      × ((r : ℕ)
          → find h v.parents ≡ some r
          → (find h (get_strong_parents v) ≡ some r) ↔ (is_weak_parent v h ≡ false))
unfolding get_strong_parents is_weak_parent
strong_or_weak v h k = (
  λ e. ground (arith, find-collect_strong v h v.parents [] k),
  λ r e. ground (arith, find-collect_strong v h v.parents [] k),
)
