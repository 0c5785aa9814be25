-- ===== src/Consensus/Protocol/WeakEdges.antt =====
-- `setWeakEdges` (consensus/consensus.cpp, lines 93 to 103): what it adds to a new vertex, and what
-- the vertex is then linked to.
use native.Mathlib.Decide.{dec_lt}
use mathlib.Core.List.Memᴰ
use dag_rider.Prelude.{
  ℕ, zero, suc, ◌+◌, ◌-◌, ◌%◌, ◌≤◌, ◌<◌, ◌≡◌, refl, inl, inr, ◌⊎◌, ⊎_elim, List, [], ◌∷◌, Memᴰ,
  Bool, true, false, some, arith, if◌then◌else◌, bind-eq-some, some_eq, ◌∙◌, ap, subst, sym, All,
  All-mem, All-intro,
}
use dag_rider.Containers.{values}
use dag_rider.Containers.Ordered
use dag_rider.Model.Vertex.{Vertex, add_parent, u64_mod}
use dag_rider.Consensus.Dag.{Dag, bucket, is_linked}
use dag_rider.Consensus.Dag.Search.{LinkPath, LinkPath-mono, last}
use dag_rider.Consensus.Dag.Links.{is_linked_sound, is_linked_complete}
use dag_rider.Consensus.Dag.Turns.{IsLayered}
use dag_rider.Consensus.Dag.Insertion.{IsWellFormed, values-IsPlaced}
use dag_rider.Consensus.Protocol.{link_round, weak_edges_loop, set_weak_edges}

-- `w` is `v` with more parents, all the new ones of rounds from 1 to `limit`. The hash is the old
-- one: it is not computed again.
pub record Extends (limit : ℕ) (v w : Vertex) : Type 0 where
  pub hash_same : w.hash ≡ v.hash
  pub owner_same : w.owner ≡ v.owner
  pub round_same : w.round ≡ v.round
  pub keeps : (h r : ℕ) → Memᴰ (h, r) v.parents → Memᴰ (h, r) w.parents
  pub only : (h r : ℕ) → Memᴰ (h, r) w.parents → Memᴰ (h, r) v.parents ⊎ ((0 < r) × (r ≤ limit))

Extends-refl : (limit : ℕ) (v : Vertex) → Extends limit v v
Extends-refl limit v = record {
  hash_same = refl;
  owner_same = refl;
  round_same = refl;
  keeps = λ h r m. m;
  only = λ h r m. inl m;
}

Extends-trans :
    {limit : ℕ} {u v w : Vertex} → Extends limit u v → Extends limit v w → Extends limit u w
Extends-trans e f = record {
  hash_same = f.hash_same ∙ e.hash_same;
  owner_same = f.owner_same ∙ e.owner_same;
  round_same = f.round_same ∙ e.round_same;
  keeps = λ h r m. f.keeps h r (e.keeps h r m);
  only = λ h r m. ⊎_elim (e.only h r) inr (f.only h r m);
}

Extends-raise : {low high : ℕ} {v w : Vertex} → low ≤ high → Extends low v w → Extends high v w
Extends-raise le e = record {
  hash_same = e.hash_same;
  owner_same = e.owner_same;
  round_same = e.round_same;
  keeps = e.keeps;
  only = λ h r m. ⊎_elim inl (λ (pos, low). inr (pos, omega arith)) (e.only h r m);
}

module _ (fuel : ℕ) (dag : Dag) where
  -- An older vertex that the search does not find is added under its hash.
  Extends-add :
      (r : ℕ) (vertex v : Vertex)
      → 0 < r
      → v.round < vertex.round
      → is_linked fuel dag vertex v ≡ some false
      → Extends r vertex (add_parent vertex v.hash r)
  unfolding add_parent
  Extends-add r vertex v pos lt e = record {
    hash_same = refl;
    owner_same = refl;
    round_same = refl;
    keeps = λ h k m.
        Ordered.mem-insert_old v.hash r vertex.parents
          (λ x named. is_linked_complete dag fuel vertex v e lt (last x named)) m;
    only = λ h k m.
        ⊎_elim (λ new. let at_r : k ≡ r = ap (λ (x : ℕ × ℕ). x.1) new in inr (omega arith)) inl
          (Ordered.mem-insert_inv v.hash r vertex.parents m);
  }

  -- What the loops come to: more parents, and a path to every vertex they went over.
  record Linked (limit : ℕ) (Q : Vertex → Type 0) (vertex vertex' : Vertex) : Type 0 where
    extends : Extends limit vertex vertex'
    paths : (v : Vertex) → Q v → LinkPath dag v vertex'

  step-Linked :
      (r : ℕ) (vertex v : Vertex) (b : Bool)
      → 0 < r
      → v.round < vertex.round
      → is_linked fuel dag vertex v ≡ some b
      → Linked r (λ w. w ≡ v) vertex (if b then vertex else add_parent vertex v.hash r)
  unfolding add_parent
  step-Linked r vertex v true pos lt e = record {
    extends = Extends-refl r vertex;
    paths = λ w same. rw same (is_linked_sound dag fuel vertex v e).1;
  }
  step-Linked r vertex v false pos lt e = record {
    extends = Extends-add r vertex v pos lt e;
    paths = λ w same. rw same (last r (Ordered.mem-insert_self v.hash r vertex.parents));
  }

  link_round-Linked :
      (r : ℕ) (vs : List Vertex) (vertex vertex' : Vertex)
      → 0 < r
      → All (λ (v : Vertex). v.round < vertex.round) vs
      → link_round fuel dag r vs vertex ≡ some vertex'
      → Linked r (λ v. Memᴰ v vs) vertex vertex'
  unfolding link_round
  link_round-Linked r [] vertex vertex' pos older e = record {
    extends = subst (Extends r vertex) (some_eq e) (Extends-refl r vertex);
    paths = λ v m. absurd (Memᴰ.not-nil m);
  }
  link_round-Linked r (x ∷ vs) vertex vertex' pos older e =
      let (b, linked, rest) = bind-eq-some (is_linked fuel dag vertex x) _ e in
      let first = step-Linked r vertex x b pos older.0 linked in
      let next : Vertex = if b then vertex else add_parent vertex x.hash r in
      let later =
        link_round-Linked r vs next vertex' pos
          (subst (λ n. All (λ (v : Vertex). v.round < n) vs) (sym first.extends.round_same) older.1)
          rest in
      record {
        extends = Extends-trans first.extends later.extends;
        paths = λ v m.
            ⊎_elim (λ same. LinkPath-mono dag v later.extends.keeps (first.paths v same))
              (later.paths v) (Memᴰ.cases_cons m);
      }

  -- A vertex of one of the rounds from 1 to `limit`.
  record Among (limit : ℕ) (v : Vertex) : Type 0 where
    round : ℕ
    positive : 0 < round
    bounded : round ≤ limit
    inside : Memᴰ v (values (bucket dag round))

  loop-Linked :
      (limit : ℕ) (vertex vertex' : Vertex)
      → IsWellFormed dag
      → limit < vertex.round
      → weak_edges_loop fuel dag limit vertex ≡ some vertex'
      → Linked limit (Among limit) vertex vertex'
  unfolding weak_edges_loop
  loop-Linked zero vertex vertex' ok lt e = record {
    extends = subst (Extends 0 vertex) (some_eq e) (Extends-refl 0 vertex);
    paths = λ v a. absurd (omega (arith, a.positive, a.bounded));
  }
  loop-Linked (suc limit) vertex vertex' ok lt e =
      let vs = values (bucket dag (suc limit)) in
      let (middle, first_run, rest) =
        bind-eq-some (link_round fuel dag (suc limit) vs vertex) _ e in
      let first =
        link_round-Linked (suc limit) vs vertex middle (omega arith)
          (All-intro _ vs (λ v m. omega (arith, (values-IsPlaced dag (suc limit) v ok m).0)))
          first_run in
      let later =
        loop-Linked limit middle vertex' ok (omega (arith, first.extends.round_same)) rest in
      record {
        extends = Extends-trans first.extends (Extends-raise (omega arith) later.extends);
        paths = λ v a. elim (dec_lt limit a.round) [
          | yes top ↦
              let e : a.round ≡ suc limit = omega (arith, a.bounded) in
              LinkPath-mono dag v later.extends.keeps
                (first.paths v (subst (λ k. Memᴰ v (values (bucket dag k))) e a.inside))
          | no below ↦ later.paths v (record {
            round = a.round;
            positive = a.positive;
            bounded = omega arith;
            inside = a.inside;
          })
        ];
      }

-- For a new vertex of a round from 3 on, when `setWeakEdges` returns: the parents given are kept,
-- and the parents added are of rounds from 1 to three below the vertex's; the hash, the owner and
-- the round stay; and from the vertex a path of parents leads to every vertex that a well-formed
-- graph holds in those rounds.
pub set_weak_edges-covers :
    (fuel : ℕ) (dag : Dag) (vertex vertex' : Vertex)
    → IsWellFormed dag
    → 3 ≤ vertex.round
    → vertex.round < u64_mod
    → set_weak_edges fuel dag vertex vertex.round ≡ some vertex'
    → Extends (vertex.round - 3) vertex vertex'
      × ((r : ℕ) (v : Vertex)
          → 0 < r
          → r + 3 ≤ vertex.round
          → Memᴰ v (values (bucket dag r))
          → LinkPath dag v vertex')
unfolding set_weak_edges
set_weak_edges-covers fuel dag vertex vertex' ok low high e =
    let start : (vertex.round + u64_mod - 3) % u64_mod ≡ vertex.round - 3 = omega arith in
    let run : weak_edges_loop fuel dag (vertex.round - 3) vertex ≡ some vertex' =
      subst (λ k. weak_edges_loop fuel dag k vertex ≡ some vertex') start e in
    let all = loop-Linked fuel dag (vertex.round - 3) vertex vertex' ok (omega arith) run in
    (
      all.extends,
      λ r v pos le m.
          all.paths v (record { round = r; positive = pos; bounded = omega arith; inside = m }),
    )

-- Weak edges keep the parents of a vertex in earlier rounds.
pub Extends-IsLayered :
    (limit : ℕ) (v w : Vertex) → limit < v.round → Extends limit v w → IsLayered v → IsLayered w
Extends-IsLayered limit v w lt e layered = All-intro _ w.parents (λ (h, r) m.
    ⊎_elim
      (λ old.
        omega (arith, e.round_same, All-mem (λ (x : ℕ × ℕ). x.1 < v.round) v.parents layered old))
      (λ (pos, le). omega (arith, e.round_same)) (e.only h r m))
