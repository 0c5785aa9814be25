-- ===== src/Containers/Ordered.antt =====
-- std::map: the entries stand in the order of their keys.
use mathlib.Core.List.Memᴰ
use dag_rider.Prelude.{
  ℕ, ◌<◌, ◌≡◌, refl, List, [], ◌∷◌, some, arith, ltb, ◌==◌, if◌then◌else◌, All, Bool-cases, inl,
  inr, Memᴰ, ◌∙◌, ◌⊎◌, ==_refl, ==→eq, subst, ap, sym, refl,
}
use dag_rider.Containers.{find, IsRising, above_trans, mem-of_find}

module _ {ℓ} {V : Type ℓ} where
  -- `m[k] = v`.
  unfoldable pub insert : ℕ → V → List (ℕ × V) → List (ℕ × V)
  insert k v [] = (k, v) ∷ []
  insert k v ((j, w) ∷ m) =
      let rest = insert k v m in
      if j == k then (j, v) ∷ m else if ltb k j then (k, v) ∷ (j, w) ∷ m else (j, w) ∷ rest

  pub find-insert :
      (k j : ℕ) (v : V) (m : List (ℕ × V))
      → find j (insert k v m) ≡ (if k == j then some v else find j m)
  unfolding insert
  find-insert k j v [] = refl
  find-insert k j v ((i, w) ∷ m) = ground (arith, find-insert k j v m)

  pub All-insert {κ} :
      (P : ℕ × V → Type κ) (k : ℕ) (v : V) (m : List (ℕ × V))
      → P (k, v)
      → All P m
      → All P (insert k v m)
  unfolding insert
  All-insert P k v [] p h = (p, tt)
  All-insert P k v ((j, w) ∷ m) p h = ground (arith, All-insert P k v m p h.1)

  pub insert-IsRising : (k : ℕ) (v : V) (m : List (ℕ × V)) → IsRising m → IsRising (insert k v m)
  unfolding insert
  insert-IsRising k v [] h = (tt, tt)
  insert-IsRising k v ((j, w) ∷ m) h =
      let above = All-insert (λ (e : ℕ × V). j < e.0) k v m in
      ground (arith, insert-IsRising k v m h.1, above_trans k j m, above)

  pub mem-insert_self : (k : ℕ) (v : V) (m : List (ℕ × V)) → Memᴰ (k, v) (insert k v m)
  mem-insert_self k v m = mem-of_find k (insert k v m) (find-insert k k v m ∙ rw (==_refl k) refl)

  -- Nothing else is new.
  pub mem-insert_inv :
      (k : ℕ) (v : V) (m : List (ℕ × V)) {e : ℕ × V}
      → Memᴰ e (insert k v m)
      → (e ≡ (k, v)) ⊎ Memᴰ e m
  unfolding insert
  mem-insert_inv k v [] i = inl (Memᴰ.eq_of_singleton i)
  mem-insert_inv k v ((j, w) ∷ m) {e} i = elim (Bool-cases (j == k)) [
    | inl same ↦ elim (Memᴰ.cases_cons (subst (Memᴰ e) (rw (same, insert) refl) i)) [
      | inl here ↦ inl (here ∙ ap (λ h. (h, v)) (==→eq j k same))
      | inr there ↦ inr (Memᴰ.tail there)
    ]
    | inr differs ↦ elim (Bool-cases (ltb k j)) [
      | inl below ↦ Memᴰ.cases_cons (subst (Memᴰ e) (rw (differs, below, insert) refl) i)
      | inr above ↦ elim (Memᴰ.cases_cons (subst (Memᴰ e) (rw (differs, above, insert) refl) i)) [
        | inl here ↦ inr (Memᴰ.head here)
        | inr there ↦ elim (mem-insert_inv k v m there) [
          | inl e ↦ inl e
          | inr old ↦ inr (Memᴰ.tail old)
        ]
      ]
    ]
  ]

  -- Under a new key, every entry stays.
  pub mem-insert_old :
      (k : ℕ) (v : V) (m : List (ℕ × V)) {e : ℕ × V}
      → ((x : V) → ¬ Memᴰ (k, x) m)
      → Memᴰ e m
      → Memᴰ e (insert k v m)
  unfolding insert
  mem-insert_old k v [] fresh i = Memᴰ.tail i
  mem-insert_old k v ((j, w) ∷ m) fresh i = elim (Bool-cases (j == k)) [
    | inl same ↦ absurd (fresh w (Memᴰ.head (ap (λ h. (h, w)) (sym (==→eq j k same)))))
    | inr differs ↦ elim (Bool-cases (ltb k j)) [
      | inl below ↦ rw (differs, below) (Memᴰ.tail i)
      | inr above ↦
          rw (differs, above)
            (elim (Memᴰ.cases_cons i) [
              | inl here ↦ Memᴰ.head here
              | inr there ↦ Memᴰ.tail (mem-insert_old k v m (λ x n. fresh x (Memᴰ.tail n)) there)
            ])
    ]
  ]
