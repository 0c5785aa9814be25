-- ===== src/Containers.antt =====
-- std::map and std::unordered_map with array or integer keys, as association lists.
pub mod Ordered
pub mod Hashed
use dag_rider.Prelude.{
  ℕ, ◌<◌, ◌≡◌, ◌≢◌, refl, List, [], ◌∷◌, map, Memᴰ, Option, none, some, arith, ◌==◌, if◌then◌else◌,
  All, true, false, Bool-cases, inl, inr, ==→eq,
}
use mathlib.Core.List.Memᴰ

module _ {ℓ} {V : Type ℓ} where
  -- `find(k)`, for both kinds of map: the value at the key, `none` for `end()`.
  abbrev pub find : ℕ → List (ℕ × V) → Option V
  find k [] = none
  find k ((j, v) ∷ m) = if j == k then some v else find k m

  abbrev pub keys : List (ℕ × V) → List ℕ
  keys = map (λ e. e.0)

  -- The values in the order of iteration.
  abbrev pub values : List (ℕ × V) → List V
  values = map (λ e. e.1)

  pub mem-of_find : (k : ℕ) (m : List (ℕ × V)) {v : V} → find k m ≡ some v → Memᴰ (k, v) m
  mem-of_find k [] h = cc
  mem-of_find k ((j, w) ∷ m) {v} h = elim (Bool-cases (j == k)) [
    | inl e ↦ Memᴰ.head (ground (arith, ==→eq j k e))
    | inr e ↦ Memᴰ.tail (mem-of_find k m (rw e at h))
  ]

  -- No key stands twice.
  abbrev pub IsKeyed : List (ℕ × V) → Type ℓ
  IsKeyed [] = Unit
  IsKeyed ((k, v) ∷ m) = (find k m ≡ none) × IsKeyed m

  pub find_of_mem :
      (k : ℕ) (m : List (ℕ × V)) {v : V} → IsKeyed m → Memᴰ (k, v) m → find k m ≡ some v
  find_of_mem k [] h i = absurd (Memᴰ.not-nil i)
  find_of_mem k ((j, w) ∷ m) h (Memᴰ.head e) = ground arith
  find_of_mem k ((j, w) ∷ m) h (Memᴰ.tail i) = let r = find_of_mem k m h.1 i in ground arith

  -- The keys rise along the list: the order in which a std::map is iterated.
  abbrev pub IsRising : List (ℕ × V) → Type 0
  IsRising [] = Unit
  IsRising ((k, v) ∷ m) = All (λ (e : ℕ × V). k < e.0) m × IsRising m

  pub find_below : (k : ℕ) (m : List (ℕ × V)) → All (λ (e : ℕ × V). k < e.0) m → find k m ≡ none
  find_below k [] h = refl
  find_below k ((j, w) ∷ m) h = let r = find_below k m h.1 in ground arith

  pub IsRising-IsKeyed : (m : List (ℕ × V)) → IsRising m → IsKeyed m
  IsRising-IsKeyed [] h = tt
  IsRising-IsKeyed ((k, v) ∷ m) h = (find_below k m h.0, IsRising-IsKeyed m h.1)

  -- An entry above a key stays above a lower one.
  pub above_trans :
      (j k : ℕ) (m : List (ℕ × V))
      → j < k
      → All (λ (e : ℕ × V). k < e.0) m
      → All (λ (e : ℕ × V). j < e.0) m
  above_trans j k [] h a = tt
  above_trans j k (e ∷ m) h a = (omega arith, above_trans j k m h a.1)
