-- ===== src/Consensus/Protocol/Delivery.antt =====
-- One turn of the innermost loop of `orderVertices` (consensus/consensus.cpp, lines 144 to 154), and
-- the set of hashes that it keeps.
pub mod Loops
pub mod Exact
use mathlib.Core.List.{map-append}
use dag_rider.Prelude.{
  ℕ, ◌<◌, ◌≡◌, refl, inl, inr, ◌⊎◌, List, [], ◌∷◌, ◌++◌, map, Bool, true, false, Option, none, some,
  arith, ◌==◌, if◌then◌else◌, Bool-cases, bind-eq-some, some_eq, ◌∙◌, sym, ap, subst, All,
}
use dag_rider.Model.Vertex.{Vertex}
use dag_rider.Consensus.State.{contains, insert}
use dag_rider.Consensus.Dag.{Dag, is_linked}
use dag_rider.Consensus.Dag.Search.{LinkPath}
use dag_rider.Consensus.Dag.Links.{is_linked_sound, is_linked_complete}
use dag_rider.Consensus.Protocol.{Ordering, deliver}

abbrev pub hashes : List Vertex → List ℕ
hashes = map (λ v. v.hash)

pub contains-append :
    (hs : List ℕ) (a h : ℕ) → contains (hs ++ a ∷ []) h ≡ (if a == h then true else contains hs h)
unfolding contains
contains-append [] a h = refl
contains-append (b ∷ hs) a h = ground (arith, contains-append hs a h)

-- No hash stands twice.
abbrev pub IsDistinct : List ℕ → Type 0
IsDistinct [] = Unit
IsDistinct (h ∷ hs) = (contains hs h ≡ false) × IsDistinct hs

IsDistinct-append :
    (hs : List ℕ) (a : ℕ) → IsDistinct hs → contains hs a ≡ false → IsDistinct (hs ++ a ∷ [])
unfolding contains
IsDistinct-append [] a d f = (refl, tt)
IsDistinct-append (h ∷ hs) a d f =
    ground (arith, IsDistinct-append hs a d.1, contains-append hs a h)

All-append_one :
    (P : Vertex → Type 0) (vs : List Vertex) (v : Vertex) → All P vs → P v → All P (vs ++ v ∷ [])
All-append_one P [] v a p = (p, tt)
All-append_one P (w ∷ vs) v a p = (a.0, All-append_one P vs v a.1 p)

abbrev with_vertex : Ordering → Vertex → Ordering
with_vertex o v = record { ordered = o.ordered ++ v ∷ []; delivered = insert o.delivered v.hash }

-- What one turn did: nothing to a vertex delivered before, or put out a linked one, or left out one
-- that is not linked.
data Delivery (dag : Dag) (leader v : Vertex) (o o' : Ordering) : Type 0 where
  seen_before : contains o.delivered v.hash ≡ true → o ≡ o' → Delivery dag leader v o o'
  put_out :
      contains o.delivered v.hash ≡ false
      → leader.round < v.round
      → LinkPath dag leader v
      → with_vertex o v ≡ o'
      → Delivery dag leader v o o'
  left_out :
      (leader.round < v.round → ¬ LinkPath dag leader v) → o ≡ o' → Delivery dag leader v o o'

deliver-Delivery :
    (fuel : ℕ) (dag : Dag) (leader v : Vertex) (o o' : Ordering)
    → deliver fuel dag leader v o ≡ some o'
    → Delivery dag leader v o o'
unfolding deliver
deliver-Delivery fuel dag leader v o o' e = elim (Bool-cases (contains o.delivered v.hash)) [
  | inl seen ↦ seen_before seen (some_eq (rw (seen, deliver) at e))
  | inr fresh ↦
      let (b, linked, result) =
        bind-eq-some (is_linked fuel dag v leader) _ (rw (fresh, deliver) at e) in
      elim (Bool-cases b) [
        | inl joined ↦
            let (lt, path) = is_linked_sound dag fuel v leader (linked ∙ ap some joined) in
            put_out fresh lt path (some_eq (rw joined at result))
        | inr apart ↦
            left_out (is_linked_complete dag fuel v leader (linked ∙ ap some apart))
              (some_eq (rw apart at result))
      ]
]

module _ (P : Vertex → Type 0) where
  -- The set holds the hashes of the vertices put out, each once, and these have the property.
  pub record IsSound (o : Ordering) : Type 0 where
    pub synced : o.delivered ≡ hashes o.ordered
    pub distinct : IsDistinct o.delivered
    pub each : All P o.ordered

  IsSound-push :
      (o : Ordering) (v : Vertex)
      → contains o.delivered v.hash ≡ false
      → P v
      → IsSound o
      → IsSound (record { ordered = o.ordered ++ v ∷ []; delivered = insert o.delivered v.hash })
  unfolding insert
  IsSound-push o v new p s = record {
    synced = rw (new, insert) (ap (λ hs. hs ++ v.hash ∷ []) s.synced ∙ sym (map-append _ _ _));
    distinct = rw (new, insert) (IsDistinct-append o.delivered v.hash s.distinct new);
    each = All-append_one P o.ordered v s.each p;
  }

  pub deliver-IsSound :
      (fuel : ℕ) (dag : Dag) (leader v : Vertex) (o o' : Ordering)
      → deliver fuel dag leader v o ≡ some o'
      → (leader.round < v.round → LinkPath dag leader v → P v)
      → IsSound o
      → IsSound o'
  deliver-IsSound fuel dag leader v o o' e p s = elim (deliver-Delivery fuel dag leader v o o' e) [
    | seen_before seen same ↦ subst IsSound same s
    | put_out fresh lt path same ↦ subst IsSound same (IsSound-push o v fresh (p lt path) s)
    | left_out apart same ↦ subst IsSound same s
  ]

-- A hash once in the set stays there.
pub deliver-keeps :
    (fuel : ℕ) (dag : Dag) (leader v : Vertex) (o o' : Ordering) (h : ℕ)
    → deliver fuel dag leader v o ≡ some o'
    → contains o.delivered h ≡ true
    → contains o'.delivered h ≡ true
unfolding insert
deliver-keeps fuel dag leader v o o' h e c = elim (deliver-Delivery fuel dag leader v o o' e) [
  | seen_before seen same ↦ rw (← same) c
  | put_out fresh lt path same ↦
      rw (← same) (rw (fresh, insert) (ground (arith, contains-append o.delivered v.hash h)))
  | left_out apart same ↦ rw (← same) c
]

-- The hash of a linked vertex gets there.
pub deliver-covers :
    (fuel : ℕ) (dag : Dag) (leader v : Vertex) (o o' : Ordering)
    → deliver fuel dag leader v o ≡ some o'
    → leader.round < v.round
    → LinkPath dag leader v
    → contains o'.delivered v.hash ≡ true
unfolding insert
deliver-covers fuel dag leader v o o' e lt path = elim (deliver-Delivery fuel dag leader v o o' e) [
  | seen_before seen same ↦ rw (← same) seen
  | put_out fresh lt' path' same ↦
      rw (← same) (rw (fresh, insert) (ground (arith, contains-append o.delivered v.hash v.hash)))
  | left_out apart same ↦ absurd (apart lt path)
]
