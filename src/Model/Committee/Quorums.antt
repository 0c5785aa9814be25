-- ===== src/Model/Committee/Quorums.antt =====
-- Quorums of a committee (model/committee.cpp, line 34): two of them share more members than may
-- be faulty.
use mathlib.Core.List.Memᴰ
use dag_rider.Prelude.{
  ℕ, suc, ◌+◌, ◌-◌, ◌/◌, ◌^◌, ◌≤◌, ◌<◌, ◌≡◌, List, [], ◌∷◌, Memᴰ, Bool, true, false, ◌&&◌, none,
  some, arith, if◌then◌else◌, length, All,
}
use dag_rider.Containers.{find, IsKeyed, keys}
use dag_rider.Model.Committee.{Committee, quorum_threshold, size}

abbrev pub count_if : (ℕ → Bool) → List ℕ → ℕ
count_if p [] = 0
count_if p (k ∷ ks) = if p k then suc (count_if p ks) else count_if p ks

-- Inclusion and exclusion: what two tests let pass overlaps by as much as they exceed the whole.
pub count_if-overlap :
    (p q : ℕ → Bool) (ks : List ℕ)
    → count_if p ks + count_if q ks ≤ count_if (λ k. p k && q k) ks + length ks
count_if-overlap p q [] = omega arith
count_if-overlap p q (k ∷ ks) = ground (arith, count_if-overlap p q ks)

count_if_mono :
    (p q : ℕ → Bool) (ks : List ℕ)
    → ((k : ℕ) → p k ≡ true → q k ≡ true)
    → count_if p ks ≤ count_if q ks
count_if_mono p q [] h = omega arith
count_if_mono p q (k ∷ ks) h = ground (arith, count_if_mono p q ks h, h k)

count_if-grow :
    (p q : ℕ → Bool) (a : ℕ) (ks : List ℕ)
    → ((k : ℕ) → p k ≡ true → q k ≡ true)
    → p a ≡ false
    → q a ≡ true
    → Memᴰ a ks
    → suc (count_if p ks) ≤ count_if q ks
count_if-grow p q a [] h pa qa m = absurd (Memᴰ.not-nil m)
count_if-grow p q a (k ∷ ks) h pa qa (Memᴰ.head e) = ground (arith, count_if_mono p q ks h)
count_if-grow p q a (k ∷ ks) h pa qa (Memᴰ.tail m) =
    ground (arith, count_if-grow p q a ks h pa qa m, h k)

-- Does the map have the key?
abbrev pub has {ℓ} : {V : Type ℓ} → List (ℕ × V) → ℕ → Bool
has m k = elim (find k m) [ none ↦ false | some _ ↦ true ]

-- A map whose keys are distinct members of the list has no more entries than members are found.
pub length-le-count_if {ℓ} :
    {V : Type ℓ} (m : List (ℕ × V)) (ks : List ℕ)
    → IsKeyed m
    → All (λ (k : ℕ). Memᴰ k ks) (keys m)
    → length m ≤ count_if (has m) ks
length-le-count_if [] ks h a = omega arith
length-le-count_if ((k, v) ∷ m) ks h a = omega (
  arith,
  length-le-count_if m ks h.1 a.1,
  count_if-grow (has m) (has ((k, v) ∷ m)) k ks (λ j e. ground arith) (ground arith) (ground arith)
      a.0,
)

-- Of two quorums the common members outnumber a third of the committee: more than
-- (n - 1) / 3, the number of faulty ones among n.
pub quorums_overlap :
    (c : Committee) (p q : ℕ → Bool) (ks : List ℕ)
    → length ks ≡ size c
    → 0 < size c
    → size c < 2 ^ 62
    → quorum_threshold c ≤ count_if p ks
    → quorum_threshold c ≤ count_if q ks
    → (size c - 1) / 3 < count_if (λ k. p k && q k) ks
unfolding quorum_threshold size
quorums_overlap c p q ks n pos small hp hq = omega (arith, count_if-overlap p q ks)
