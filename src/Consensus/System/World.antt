-- ===== src/Consensus/System/World.antt =====
-- Graphs of vertices that each name a quorum of the round before: what all of them have when one has a
-- quorum of vertices that are linked to a vertex.
use dag_rider.Prelude.{
  ℕ, ◌+◌, ◌^◌, ◌≤◌, ◌<◌, ◌≡◌, ap, ◌∙◌, sym, subst, List, [], ◌∷◌, Memᴰ, Bool, true, some, arith,
  length, All, All-mem, All-map, All-intro, Bool-cases, Option-cases, inl, inr, ◌&&◌,
}
use dag_rider.Containers.{find, keys, values, IsKeyed, mem-of_find}
use dag_rider.Model.Vertex.{Vertex}
use dag_rider.Model.Committee.{Committee, size, quorum_threshold, get_nodes_keys}
use dag_rider.Model.Committee.Quorums.{count_if, has, length-le-count_if, quorums_overlap}
use dag_rider.Consensus.Dag.{Dag, Round, bucket, get_vertex}
use dag_rider.Consensus.Dag.Turns.{IsLayered}
use dag_rider.Consensus.Dag.Search.{LinkPath, last, next}
use dag_rider.Consensus.Dag.Lookup.{IsHeld, get_vertex-mem}
use dag_rider.Consensus.Dag.Insertion.{IsPlaced, bucket-IsRound}
use dag_rider.Consensus.Dag.Closure.{mem-values}
use dag_rider.Consensus.Quorum.{length-get_nodes_keys}
use dag_rider.Consensus.Protocol.History.{HasNoRivals, IsCausal}
use dag_rider.Consensus.System.Votes.{Votes}

-- Vertices of the round before that the vertex names as parents, of a quorum of owners.
pub record IsBacked (U : Vertex → Type 0) (quorum : ℕ) (v : Vertex) : Type 0 where
  pub round : Round
  pub enough : quorum ≤ length round
  pub keyed : IsKeyed round
  pub each :
      All
        (λ (e : ℕ × Vertex).
          (e.1.owner ≡ e.0)
          × (e.1.round + 1 ≡ v.round)
          × U e.1
          × Memᴰ (e.1.hash, e.1.round) v.parents)
        round

-- Vertices of members: one for an owner in a round, no two of one hash, each backed by a quorum but for
-- those of round 1.
pub record IsWorld (U : Vertex → Type 0) (c : Committee) : Type 0 where
  pub one : (v w : Vertex) → U v → U w → v.owner ≡ w.owner → v.round ≡ w.round → v ≡ w
  pub hashed : (v w : Vertex) → U v → U w → v.hash ≡ w.hash → v ≡ w
  pub member : (v : Vertex) → U v → Memᴰ v.owner (get_nodes_keys c)
  pub backed : (v : Vertex) → U v → 2 ≤ v.round → IsBacked U (quorum_threshold c) v

count_if-some : (p : ℕ → Bool) (ks : List ℕ) → 0 < count_if p ks → (k : ℕ) × (p k ≡ true)
count_if-some p [] pos = absurd (omega arith)
count_if-some p (k ∷ ks) pos = elim (Bool-cases (p k)) [
  | inl holds ↦ (k, holds)
  | inr fails ↦ count_if-some p ks (rw fails at pos)
]

has-find : (m : Round) (k : ℕ) → has m k ≡ true → (v : Vertex) × (find k m ≡ some v)
has-find m k h = elim (Option-cases (find k m)) [
  | inl n ↦ cc (rw (n, has) at h)
  | inr (v, e) ↦ (v, e)
]

keys-All : (P : ℕ → Type 0) (m : Round) → All (λ (e : ℕ × Vertex). P e.0) m → All P (keys m)
keys-All P [] h = tt
keys-All P (e ∷ m) h = (h.0, keys-All P m h.1)

module _ (U : Vertex → Type 0) (calm : HasNoRivals U) (c : Committee) (world : IsWorld U c) where
  -- A parent of a vertex that the graph holds is held, in its round.
  pub parent_held :
      (d : Dag) (h r s : ℕ) (v : Vertex)
      → IsCausal U calm d
      → Memᴰ v (values (bucket d s))
      → Memᴰ (h, r) v.parents
      → (p : Vertex) × (get_vertex d h r ≡ some p)
        × Memᴰ p (values (bucket d r))
        × (p.hash ≡ h)
        × U p
        × (p.round ≡ r)
  parent_held d h r s v k m named =
      let (p, found) =
        All-mem (λ (e : ℕ × ℕ). IsHeld d e.0 e.1) v.parents (k.closed.held s v m) named in
      let (there, hash) = get_vertex-mem d h r p found in
      let (known, round) = k.each r p there in (p, found, there, hash, known, round)

  -- A path of parents in one graph is one in every other that holds where it starts, and that holds
  -- where it ends.
  pub LinkPath-carried :
      (d e : Dag) (p v : Vertex) (r s : ℕ)
      → IsCausal U calm d
      → IsCausal U calm e
      → U p
      → Memᴰ v (values (bucket d r))
      → Memᴰ v (values (bucket e s))
      → LinkPath d p v
      → LinkPath e p v × Memᴰ p (values (bucket e p.round))
  LinkPath-carried d e p v r s kd ke u in_d in_e (last t named) =
      let (x, found, there, hash, known, round) = parent_held e p.hash t s v ke in_e named in
      let same : x ≡ p = world.hashed x p known u hash in
      (
        last t named,
        subst (λ (y : Vertex). Memᴰ y (values (bucket e y.round))) same
            (subst (λ n. Memᴰ x (values (bucket e n))) (sym round) there),
      )
  LinkPath-carried d e p v r s kd ke u in_d in_e (next {p = q} step path) =
      let (x, found, there, hash, known, round) =
        parent_held e step.hash step.round s v ke in_e step.listed in
      let (there_d, hash_d) = get_vertex-mem d step.hash step.round q step.held in
      let same : x ≡ q =
        world.hashed x q known (kd.each step.round q there_d).0 (hash ∙ sym hash_d) in
      let (rest, held) =
        LinkPath-carried d e p q step.round step.round kd ke u there_d
          (subst (λ (y : Vertex). Memᴰ y (values (bucket e step.round))) same there) path in
      (
        next
            (record {
              hash = step.hash;
              round = step.round;
              listed = step.listed;
              newer = step.newer;
              held = found ∙ ap some same;
            })
            rest,
        held,
      )

  -- A vertex of the next round names one of a quorum of vertices linked to `p`.
  pub meets :
      (d : Dag) (p v : Vertex) (r weight : ℕ)
      → 0 < size c
      → size c < 2 ^ 62
      → IsCausal U calm d
      → quorum_threshold c ≤ weight
      → Votes d p (bucket d r) weight
      → U v
      → 2 ≤ v.round
      → v.round ≡ r + 1
      → (u : Vertex) × Memᴰ u (values (bucket d r)) × LinkPath d p u × Memᴰ (u.hash, r) v.parents
  meets d p v r weight pos small k enough votes known low next_round =
      let back = world.backed v known low in
      let placed = (bucket-IsRound d r k.formed).1 in
      let their =
        All-intro (λ (e : ℕ × Vertex). Memᴰ e.0 (get_nodes_keys c)) votes.voters
          (λ e m.
            let here = (All-mem _ votes.voters votes.linked m).0 in
            subst (λ o. Memᴰ o (get_nodes_keys c)) (All-mem (IsPlaced r) (bucket d r) placed here).1
              (world.member e.1 (k.each r e.1 (mem-values e.0 (bucket d r) e.1 here)).0)) in
      let mine =
        All-map _ (λ (e : ℕ × Vertex). Memᴰ e.0 (get_nodes_keys c)) back.round
          (λ e (owner, _, u, _). subst (λ o. Memᴰ o (get_nodes_keys c)) owner (world.member e.1 u))
          back.each in
      let more =
        quorums_overlap c (has votes.voters) (has back.round) (get_nodes_keys c)
          (length-get_nodes_keys c) pos small
          (omega (
            arith,
            votes.many,
            length-le-count_if votes.voters (get_nodes_keys c) votes.keyed
                (keys-All _ votes.voters their),
          ))
          (omega (
            arith,
            back.enough,
            length-le-count_if back.round (get_nodes_keys c) back.keyed
                (keys-All _ back.round mine),
          )) in
      let (owner, both) =
        count_if-some (λ o. has votes.voters o && has back.round o) (get_nodes_keys c)
          (omega (arith, more)) in
      let (u, voted) = has-find votes.voters owner (ground arith) in
      let (w, named) = has-find back.round owner (ground arith) in
      let (here, path) =
        All-mem _ votes.voters votes.linked (mem-of_find owner votes.voters voted) in
      let (of_w, before, known_w, listed) =
        All-mem _ back.round back.each (mem-of_find owner back.round named) in
      let at : (u.round ≡ r) × (u.owner ≡ owner) × IsLayered u =
        All-mem (IsPlaced r) (bucket d r) placed here in
      let there = mem-values owner (bucket d r) u here in
      let same : w ≡ u =
        world.one w u known_w (k.each r u there).0 (of_w ∙ sym at.1) (omega (arith, at.0)) in
      (
        u,
        there,
        path,
        subst (λ n. Memᴰ (u.hash, n) v.parents) at.0
            (subst (λ (x : Vertex). Memᴰ (x.hash, x.round) v.parents) same listed),
      )
