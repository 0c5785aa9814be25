-- ===== src/Model/Committee/Keys.antt =====
-- The keys of a committee in their order (`std::sort` on `get_nodes_keys`): the order in which the
-- unordered map lists the validators leaves no trace.
use mathlib.Core.List.{Perm, Permᴰ}
use mathlib.Core.List.Perm
use mathlib.Core.List.Memᴰ
use mathlib.Core.Logic.{∥∥₁_elim}
use dag_rider.Prelude.{
  ℕ, suc, ◌≡◌, refl, ap, ◌∙◌, List, [], ◌∷◌, Memᴰ, arith, leb, if◌then◌else◌, length, inl, inr,
  Bool-cases, ◌⊎◌, subst,
}
use dag_rider.Model.Committee.{Committee, get_nodes_keys}

unfoldable pub insert_key : ℕ → List ℕ → List ℕ
insert_key k [] = k ∷ []
insert_key k (j ∷ js) = let rest = insert_key k js in if leb k j then k ∷ j ∷ js else j ∷ rest

-- `std::sort` on keys.
unfoldable pub sort : List ℕ → List ℕ
unfolding insert_key
sort [] = []
sort (k ∷ ks) = insert_key k (sort ks)

length-insert_key : (k : ℕ) (js : List ℕ) → length (insert_key k js) ≡ suc (length js)
unfolding insert_key
length-insert_key k [] = refl
length-insert_key k (j ∷ js) = ground (arith, length-insert_key k js)

pub length-sort : (ks : List ℕ) → length (sort ks) ≡ length ks
unfolding sort
length-sort [] = refl
length-sort (k ∷ ks) = length-insert_key k (sort ks) ∙ ap suc (length-sort ks)

mem-insert_key : (a k : ℕ) (js : List ℕ) → Memᴰ a (insert_key k js) → (a ≡ k) ⊎ Memᴰ a js
unfolding insert_key
mem-insert_key a k [] m = Memᴰ.cases_cons m
mem-insert_key a k (j ∷ js) m = elim (Bool-cases (leb k j)) [
  | inl le ↦ Memᴰ.cases_cons (subst (Memᴰ a) (rw (le, insert_key) refl) m)
  | inr gt ↦
      let l : Memᴰ a (j ∷ insert_key k js) = subst (Memᴰ a) (rw (gt, insert_key) refl) m in
      elim (Memᴰ.cases_cons l) [
        | inl e ↦ inr (Memᴰ.head e)
        | inr t ↦ elim (mem-insert_key a k js t) [ inl e ↦ inl e | inr old ↦ inr (Memᴰ.tail old) ]
      ]
]

-- Sorting makes no key up.
pub mem-sort : (a : ℕ) (ks : List ℕ) → Memᴰ a (sort ks) → Memᴰ a ks
unfolding sort
mem-sort a [] m = m
mem-sort a (k ∷ ks) m = elim (mem-insert_key a k (sort ks) m) [
  | inl e ↦ Memᴰ.head e
  | inr t ↦ Memᴰ.tail (mem-sort a ks t)
]

insert_key_comm :
    (j k : ℕ) (ks : List ℕ) → insert_key j (insert_key k ks) ≡ insert_key k (insert_key j ks)
unfolding insert_key
insert_key_comm j k [] = ground arith
insert_key_comm j k (i ∷ ks) = ground (arith, insert_key_comm j k ks)

sort-Permᴰ : {xs ys : List ℕ} → Permᴰ xs ys → sort xs ≡ sort ys
unfolding sort
sort-Permᴰ Permᴰ.nil = refl
sort-Permᴰ (Permᴰ.cons {b = b} e p) = rw (e, sort-Permᴰ p)
sort-Permᴰ (Permᴰ.swap {a' = a} {b' = b} {l = l} e f) = rw (e, f) (insert_key_comm b a (sort l))
sort-Permᴰ (Permᴰ.trans p q) = sort-Permᴰ p ∙ sort-Permᴰ q

-- Lists with the same keys in another order are sorted alike.
pub sort-perm : {xs ys : List ℕ} → Perm xs ys → sort xs ≡ sort ys
sort-perm {xs} {ys} p = let prop : IsProp (sort xs ≡ sort ys) = hlevel in ∥∥₁_elim p prop sort-Permᴰ

-- The sorted keys of a committee do not depend on the order in which its map lists the validators.
pub sort-get_nodes_keys-perm :
    (c d : Committee) → Perm c d → sort (get_nodes_keys c) ≡ sort (get_nodes_keys d)
unfolding get_nodes_keys
sort-get_nodes_keys-perm c d p = sort-perm (Perm.map _ (Perm.map _ p))
