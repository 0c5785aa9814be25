-- ===== src/Consensus/Protocol/Delivery/Loops.antt =====
-- The loops of `orderVertices` over rounds and vertices, for one leader (consensus/consensus.cpp,
-- lines 144 to 154).
use mathlib.Core.List.Memᴰ
use dag_rider.Prelude.{
  ℕ, ◌<◌, ◌≡◌, refl, inl, inr, List, [], ◌∷◌, Memᴰ, true, Option, some, arith, ltb, if◌then◌else◌,
  Bool-cases, bind-eq-some, some_eq, ltb→lt, ltb-eq-false, ap, subst,
}
use dag_rider.Containers.{values}
use dag_rider.Model.Vertex.{Vertex}
use dag_rider.Consensus.State.{contains}
use dag_rider.Consensus.Dag.{Dag, Round}
use dag_rider.Consensus.Dag.Search.{LinkPath}
use dag_rider.Consensus.Protocol.{Ordering, deliver, deliver_round, deliver_graph}
use dag_rider.Consensus.Protocol.Delivery.{IsSound, deliver-IsSound, deliver-keeps, deliver-covers}

-- A vertex of the graph in a round from 1 on.
pub record InGraph (graph : List (ℕ × Round)) (v : Vertex) : Type 0 where
  pub round : ℕ
  pub vertices : Round
  pub positive : 0 < round
  pub listed : Memᴰ (round, vertices) graph
  pub inside : Memᴰ v (values vertices)

InGraph-tail :
    {graph : List (ℕ × Round)} {v : Vertex} (e : ℕ × Round)
    → InGraph graph v
    → InGraph (e ∷ graph) v
InGraph-tail e g = record {
  round = g.round;
  vertices = g.vertices;
  positive = g.positive;
  listed = Memᴰ.tail g.listed;
  inside = g.inside;
}

module _ (fuel : ℕ) (dag : Dag) (leader : Vertex) where
  -- What a loop did to the output: it kept the set, and covered the linked vertices among `Q`.
  pub record Covers (Q : Vertex → Type 0) (o o' : Ordering) : Type 0 where
    pub keeps : (h : ℕ) → contains o.delivered h ≡ true → contains o'.delivered h ≡ true
    pub covers :
        (v : Vertex)
        → Q v
        → leader.round < v.round
        → LinkPath dag leader v
        → contains o'.delivered v.hash ≡ true

  round-Covers :
      (vs : List Vertex) (o o' : Ordering)
      → deliver_round fuel dag leader vs o ≡ some o'
      → Covers (λ v. Memᴰ v vs) o o'
  unfolding deliver_round
  round-Covers [] o o' e = record {
    keeps = λ h c. rw (← some_eq e) c;
    covers = λ v m lt path. absurd (Memᴰ.not-nil m);
  }
  round-Covers (x ∷ vs) o o' e =
      let (p, first, rest) = bind-eq-some (deliver fuel dag leader x o) _ e in
      let ih = round-Covers vs p o' rest in
      record {
        keeps = λ h c. ih.keeps h (deliver-keeps fuel dag leader x o p h first c);
        covers = λ v m lt path. elim (Memᴰ.cases_cons m) [
          | inl same ↦ rw same (
              ih.keeps x.hash
                (deliver-covers fuel dag leader x o p first (rw (← same) lt) (rw (← same) path)))
          | inr later ↦ ih.covers v later lt path
        ];
      }

  -- The entry of one round.
  abbrev entry : ℕ → Round → Ordering → Option Ordering
  entry r vs o = if ltb 0 r then deliver_round fuel dag leader (values vs) o else some o

  entry-Covers :
      (r : ℕ) (vs : Round) (o o' : Ordering)
      → entry r vs o ≡ some o'
      → Covers (λ v. (0 < r) × Memᴰ v (values vs)) o o'
  entry-Covers r vs o o' e = elim (Bool-cases (ltb 0 r)) [
    | inl pos ↦
        let c = round-Covers (values vs) o o' (rw pos at e) in
        record { keeps = c.keeps; covers = λ v q. c.covers v q.1 }
    | inr zero_round ↦
        let same = some_eq (rw zero_round at e) in
        record {
          keeps = λ h c. rw (← same) c;
          covers = λ v q. absurd (omega (arith, ltb-eq-false 0 r zero_round));
        }
  ]

  pub graph-Covers :
      (graph : List (ℕ × Round)) (o o' : Ordering)
      → deliver_graph fuel dag leader graph o ≡ some o'
      → Covers (InGraph graph) o o'
  unfolding deliver_graph
  graph-Covers [] o o' e = record {
    keeps = λ h c. rw (← some_eq e) c;
    covers = λ v g lt path. absurd (Memᴰ.not-nil g.listed);
  }
  graph-Covers ((r, vs) ∷ graph) o o' e =
      let (p, first, rest) = bind-eq-some (entry r vs o) _ e in
      let here = entry-Covers r vs o p first in
      let ih = graph-Covers graph p o' rest in
      record {
        keeps = λ h c. ih.keeps h (here.keeps h c);
        covers = λ v g lt path. elim (Memᴰ.cases_cons g.listed) [
          | inl same ↦ ih.keeps v.hash (
              here.covers v
                (
                  subst (◌<◌ 0) (ap (λ (x : ℕ × Round). x.0) same) g.positive,
                  subst (λ (x : Round). Memᴰ v (values x)) (ap (λ (x : ℕ × Round). x.1) same)
                      g.inside,
                )
                lt path)
          | inr later ↦
              ih.covers v
                (record {
                  round = g.round;
                  vertices = g.vertices;
                  positive = g.positive;
                  listed = later;
                  inside = g.inside;
                })
                lt path
        ];
      }

  round-IsSound :
      (P : Vertex → Type 0) (vs : List Vertex) (o o' : Ordering)
      → deliver_round fuel dag leader vs o ≡ some o'
      → ((v : Vertex) → Memᴰ v vs → leader.round < v.round → LinkPath dag leader v → P v)
      → IsSound P o
      → IsSound P o'
  unfolding deliver_round
  round-IsSound P [] o o' e h s = subst (IsSound P) (some_eq e) s
  round-IsSound P (x ∷ vs) o o' e h s =
      let (p, first, rest) = bind-eq-some (deliver fuel dag leader x o) _ e in
      round-IsSound P vs p o' rest (λ v m. h v (Memᴰ.tail m))
        (deliver-IsSound P fuel dag leader x o p first (h x (Memᴰ.head refl)) s)

  pub graph-IsSound :
      (P : Vertex → Type 0) (graph : List (ℕ × Round)) (o o' : Ordering)
      → deliver_graph fuel dag leader graph o ≡ some o'
      → ((v : Vertex) → InGraph graph v → leader.round < v.round → LinkPath dag leader v → P v)
      → IsSound P o
      → IsSound P o'
  unfolding deliver_graph
  graph-IsSound P [] o o' e h s = subst (IsSound P) (some_eq e) s
  graph-IsSound P ((r, vs) ∷ graph) o o' e h s =
      let (p, first, rest) = bind-eq-some (entry r vs o) _ e in
      graph-IsSound P graph p o' rest (λ v g. h v (InGraph-tail (r, vs) g))
        (elim (Bool-cases (ltb 0 r)) [
          | inl pos ↦
              round-IsSound P (values vs) o p (rw pos at first)
                (λ v m. h v (record {
                  round = r;
                  vertices = vs;
                  positive = ltb→lt 0 r pos;
                  listed = Memᴰ.head refl;
                  inside = m;
                }))
                s
          | inr zero_round ↦ subst (IsSound P) (some_eq (rw zero_round at first)) s
        ])
