-- ===== src/Containers/Hashed.antt =====
-- std::unordered_map: the entries stand in some order. A new key is put last here; what is proved
-- of a map holds for every order of its entries.
use dag_rider.Prelude.{
  ℕ, ◌≡◌, refl, ap, ◌∙◌, sym, List, [], ◌∷◌, ◌++◌, none, some, Bool-cases, inl, inr, ==→eq, ==_refl,
  arith, ◌==◌, if◌then◌else◌, All,
}
use dag_rider.Containers.{find, IsKeyed}

module _ {ℓ} {V : Type ℓ} where
  -- `m[k] = v`.
  unfoldable pub insert : ℕ → V → List (ℕ × V) → List (ℕ × V)
  insert k v [] = (k, v) ∷ []
  insert k v ((j, w) ∷ m) = let rest = insert k v m in if j == k then (j, v) ∷ m else (j, w) ∷ rest

  pub find-insert :
      (k j : ℕ) (v : V) (m : List (ℕ × V))
      → find j (insert k v m) ≡ (if k == j then some v else find j m)
  unfolding insert
  find-insert k j v [] = refl
  find-insert k j v ((i, w) ∷ m) = ground (arith, find-insert k j v m)

  pub All-insert {κ} :
      (P : ℕ × V → Type κ) (k : ℕ) (v : V) (m : List (ℕ × V))
      → P (k, v)
      → All P m
      → All P (insert k v m)
  unfolding insert
  All-insert P k v [] p h = (p, tt)
  All-insert P k v ((j, w) ∷ m) p h = ground (arith, All-insert P k v m p h.1)

  pub insert-IsKeyed : (k : ℕ) (v : V) (m : List (ℕ × V)) → IsKeyed m → IsKeyed (insert k v m)
  unfolding insert
  insert-IsKeyed k v [] h = (refl, tt)
  insert-IsKeyed k v ((j, w) ∷ m) h = ground (arith, insert-IsKeyed k v m h.1, find-insert k j v m)

  -- `m.emplace(k, v)`: a key that is there keeps its value.
  unfoldable pub emplace : ℕ → V → List (ℕ × V) → List (ℕ × V)
  emplace k v [] = (k, v) ∷ []
  emplace k v ((j, w) ∷ m) =
      let rest = emplace k v m in if j == k then (j, w) ∷ m else (j, w) ∷ rest

  pub emplace-new :
      (k : ℕ) (v : V) (m : List (ℕ × V)) → find k m ≡ none → emplace k v m ≡ m ++ (k, v) ∷ []
  unfolding emplace
  emplace-new k v [] h = refl
  emplace-new k v ((j, w) ∷ m) h = elim (Bool-cases (j == k)) [
    | inl e ↦ let h' = rw e at h in absurd cc
    | inr e ↦ rw e (ap (λ r. (j, w) ∷ r) (emplace-new k v m (rw e at h)))
  ]

  found : (k : ℕ) (v : V) (front m : List (ℕ × V)) → find k (front ++ (k, v) ∷ m) ≡ none → ⊥
  found k v [] m h = let h' = rw (==_refl k) at h in absurd cc
  found k v ((j, w) ∷ front) m h = elim (Bool-cases (j == k)) [
    | inl e ↦ let h' = rw e at h in absurd cc
    | inr e ↦ found k v front m (rw e at h)
  ]

  -- A key that comes later in a map does not stand before.
  pub IsKeyed-before :
      (k : ℕ) (v : V) (front m : List (ℕ × V)) → IsKeyed (front ++ (k, v) ∷ m) → find k front ≡ none
  IsKeyed-before k v [] m h = refl
  IsKeyed-before k v ((j, w) ∷ front) m h = elim (Bool-cases (j == k)) [
    | inl e ↦
        absurd
          (found k v front m (ap (λ i. find i (front ++ (k, v) ∷ m)) (sym (==→eq j k e)) ∙ h.0))
    | inr e ↦ rw e (IsKeyed-before k v front m h.1)
  ]
