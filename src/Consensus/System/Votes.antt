-- ===== src/Consensus/System/Votes.antt =====
-- The vertices that `isLinkedWithOthersInRound` counts (consensus/dag.cpp, lines 44 to 55).
use dag_rider.Prelude.{
  ℕ, ◌+◌, ◌%◌, ◌≤◌, ◌≡◌, ◌∙◌, refl, ap, [], ◌∷◌, Memᴰ, true, none, some, arith, length, All,
  All-map, ◌==◌, leb, Bool-cases, bind-eq-some, some_eq, inl, inr,
}
use dag_rider.Containers.{find, values, IsKeyed}
use dag_rider.Model.Vertex.{Vertex}
use dag_rider.Consensus.Dag.{
  Dag, Round, u32_mod, bucket, is_strongly_linked, count_linked, is_linked_with_others_in_round,
}
use dag_rider.Consensus.Dag.Search.{LinkPath}
use dag_rider.Consensus.Protocol.Commit.{is_strongly_linked_sound}

-- Entries of a round, of owners of their own, that a path of parents joins to `p`.
pub record Votes (d : Dag) (p : Vertex) (round : Round) (weight : ℕ) : Type 0 where
  pub voters : Round
  pub many : weight ≤ length voters
  pub keyed : IsKeyed voters
  pub absent : (k : ℕ) → find k round ≡ none → find k voters ≡ none
  pub linked : All (λ (e : ℕ × Vertex). Memᴰ e round × LinkPath d p e.1) voters

module _ (d : Dag) (p : Vertex) where
  Votes-skip :
      (e : ℕ × Vertex) (round : Round) (weight : ℕ)
      → Votes d p round weight
      → Votes d p (e ∷ round) weight
  Votes-skip (k, v) round weight s = record {
    voters = s.voters;
    many = s.many;
    keyed = s.keyed;
    absent = λ j n. elim (Bool-cases (k == j)) [
      | inl same ↦ cc (rw same at n)
      | inr other ↦ s.absent j (rw other at n)
    ];
    linked = All-map _ _ s.voters (λ e (m, path). (Memᴰ.tail m, path)) s.linked;
  }

  Votes-take :
      (k : ℕ) (v : Vertex) (round : Round) (weight : ℕ)
      → find k round ≡ none
      → LinkPath d p v
      → Votes d p round weight
      → Votes d p ((k, v) ∷ round) (weight + 1)
  Votes-take k v round weight new path s = record {
    voters = (k, v) ∷ s.voters;
    many = omega (arith, s.many);
    keyed = (s.absent k new, s.keyed);
    absent = λ j n. elim (Bool-cases (k == j)) [
      | inl same ↦ cc (rw same at n)
      | inr other ↦ rw other (s.absent j (rw other at n))
    ];
    linked = (
      (Memᴰ.head refl, path),
      All-map _ _ s.voters (λ e (m, path). (Memᴰ.tail m, path)) s.linked,
    );
  }

  count_linked-Votes :
      (fuel : ℕ) (round : Round) (start weight : ℕ)
      → count_linked fuel d p (values round) start ≡ some weight
      → IsKeyed round
      → (more : ℕ) × (weight ≤ start + more) × Votes d p round more
  unfolding count_linked
  count_linked-Votes fuel [] start weight e keyed = (
    0,
    omega (arith, some_eq e),
    record { voters = []; many = omega arith; keyed = tt; absent = λ k n. refl; linked = tt },
  )
  count_linked-Votes fuel ((k, v) ∷ round) start weight e keyed =
      let (b, linked, rest) = bind-eq-some (is_strongly_linked fuel d v p) _ e in
      elim (Bool-cases b) [
        | inl joined ↦
            let (more, enough, votes) =
              count_linked-Votes fuel round ((start + 1) % u32_mod) weight (rw joined at rest)
                keyed.1 in
            (
              more + 1,
              omega (arith, enough),
              Votes-take k v round more keyed.0
                  (is_strongly_linked_sound fuel d v p (linked ∙ ap some joined)).1 votes,
            )
        | inr apart ↦
            let (more, enough, votes) =
              count_linked-Votes fuel round start weight (rw apart at rest) keyed.1 in
            (more, enough, Votes-skip (k, v) round more votes)
      ]

  -- When the function says true, there is a quorum of them.
  pub is_linked_with_others-Votes :
      (fuel r : ℕ)
      → is_linked_with_others_in_round fuel d p r ≡ some true
      → IsKeyed (bucket d r)
      → (weight : ℕ) × (d.min_quorum ≤ weight) × Votes d p (bucket d r) weight
  unfolding is_linked_with_others_in_round
  is_linked_with_others-Votes fuel r e keyed =
      let (weight, counted, enough) =
        bind-eq-some (count_linked fuel d p (values (bucket d r)) 0) _ e in
      let (more, le, votes) = count_linked-Votes fuel (bucket d r) 0 weight counted keyed in
      let reached : leb d.min_quorum weight ≡ true = some_eq enough in (more, ground arith, votes)
