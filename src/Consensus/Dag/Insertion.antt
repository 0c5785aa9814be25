-- ===== src/Consensus/Dag/Insertion.antt =====
-- `insertVertex` and the constructor (consensus/dag.cpp, lines 5 to 13): what they store, and the
-- shape of the graph that they keep.
use mathlib.Core.List.Memᴰ
use dag_rider.Prelude.{
  ℕ, ◌≡◌, refl, inl, inr, List, [], ◌∷◌, Memᴰ, ◌&&◌, some, arith, ◌==◌, if◌then◌else◌, Option-cases,
  All, All-mem,
}
use dag_rider.Containers.{find, values, IsKeyed, IsRising, mem-of_find}
use dag_rider.Containers.Ordered
use dag_rider.Containers.Hashed
use dag_rider.Model.Vertex.{Vertex}
use dag_rider.Consensus.Dag.{Dag, Round, bucket, add_roots, create, insert_vertex}
use dag_rider.Consensus.Dag.Turns.{IsLayered, IsLayeredDag}
use dag_rider.Consensus.Dag.Lookup.{get_vertex-mem}

-- What holds of a vertex that stands under a round and an owner.
abbrev pub IsPlaced : ℕ → ℕ × Vertex → Type 0
IsPlaced round e = (e.1.round ≡ round) × (e.1.owner ≡ e.0) × IsLayered e.1

abbrev pub IsRound : ℕ × Round → Type 0
IsRound e = IsKeyed e.1 × All (IsPlaced e.0) e.1

-- The rounds rise along the graph; in each, every owner has one vertex at most; and every vertex
-- stands under its own round and owner and has parents of earlier rounds only.
pub record IsWellFormed (dag : Dag) : Type 0 where
  pub rising : IsRising dag.graph
  pub rounds : All IsRound dag.graph

pub bucket-IsRound : (dag : Dag) (r : ℕ) → IsWellFormed dag → IsRound (r, bucket dag r)
bucket-IsRound dag r w = elim (Option-cases (find r dag.graph)) [
  | inl e ↦ rw e (tt, tt)
  | inr (vs, e) ↦ rw e (All-mem IsRound dag.graph w.rounds (mem-of_find r dag.graph e))
]

-- Inserting a vertex with parents of earlier rounds keeps the graph well formed.
pub insert_vertex-IsWellFormed :
    (dag : Dag) (v : Vertex) → IsWellFormed dag → IsLayered v → IsWellFormed (insert_vertex dag v)
unfolding insert_vertex
insert_vertex-IsWellFormed dag v w layered =
    let (keyed, placed) = bucket-IsRound dag v.round w in
    record {
      rising = Ordered.insert-IsRising v.round _ dag.graph w.rising;
      rounds =
          Ordered.All-insert IsRound v.round _ dag.graph
            (
              Hashed.insert-IsKeyed v.owner v _ keyed,
              Hashed.All-insert (IsPlaced v.round) v.owner v _ (refl, refl, layered) placed,
            )
            w.rounds;
    }

-- After `insertVertex` the vertex is the one of its owner in its round, in place of any that stood
-- there, and every other round and owner has the vertex that it had.
pub find-insert_vertex :
    (dag : Dag) (v : Vertex) (r owner : ℕ)
    → find owner (bucket (insert_vertex dag v) r)
      ≡ (if (v.round == r) && (v.owner == owner) then some v else find owner (bucket dag r))
unfolding insert_vertex
find-insert_vertex dag v r owner = ground (
  arith,
  Ordered.find-insert v.round r (Hashed.insert v.owner v (bucket dag v.round)) dag.graph,
  Hashed.find-insert v.owner owner v (bucket dag v.round),
)

values-IsPlaced_of :
    (r : ℕ) (vs : Round) (p : Vertex)
    → All (IsPlaced r) vs
    → Memᴰ p (values vs)
    → (p.round ≡ r) × IsLayered p
values-IsPlaced_of r [] p a m = absurd (Memᴰ.not-nil m)
values-IsPlaced_of r (e ∷ vs) p a (Memᴰ.head same) = rw same (a.0.0, a.0.2)
values-IsPlaced_of r (e ∷ vs) p a (Memᴰ.tail m) = values-IsPlaced_of r vs p a.1 m

-- What stands in a round is of that round, with parents of earlier ones.
pub values-IsPlaced :
    (dag : Dag) (r : ℕ) (p : Vertex)
    → IsWellFormed dag
    → Memᴰ p (values (bucket dag r))
    → (p.round ≡ r) × IsLayered p
values-IsPlaced dag r p w m = values-IsPlaced_of r (bucket dag r) p (bucket-IsRound dag r w).1 m

-- A well-formed graph is one in which the search of `isLinkedInternal` ends.
pub IsWellFormed-IsLayeredDag : (dag : Dag) → IsWellFormed dag → IsLayeredDag dag
IsWellFormed-IsLayeredDag dag w = record {
  round_of = λ h r p e. (values-IsPlaced dag r p w (get_vertex-mem dag h r p e).0).0;
  layered = λ h r p e. (values-IsPlaced dag r p w (get_vertex-mem dag h r p e).0).1;
}

add_roots-IsRound :
    (root : List Vertex) (genesis : Round)
    → All (λ (v : Vertex). (v.round ≡ 1) × IsLayered v) root
    → IsRound (1, genesis)
    → IsRound (1, add_roots root genesis)
unfolding add_roots
add_roots-IsRound [] genesis h g = g
add_roots-IsRound (v ∷ root) genesis h g =
    add_roots-IsRound root (Hashed.insert v.owner v genesis) h.1 (
      Hashed.insert-IsKeyed v.owner v genesis g.0,
      Hashed.All-insert (IsPlaced 1) v.owner v genesis (h.0.0, refl, h.0.1) g.1,
    )

-- The constructor makes a well-formed graph of vertices of round 1.
pub create-IsWellFormed :
    (root : List Vertex) (min_quorum : ℕ)
    → All (λ (v : Vertex). (v.round ≡ 1) × IsLayered v) root
    → IsWellFormed (create root min_quorum)
unfolding create Ordered.insert
create-IsWellFormed root min_quorum h = record {
  rising = (tt, tt);
  rounds = (add_roots-IsRound root [] h (tt, tt), tt);
}
