-- ===== src/Network/Coroutines/Sound.antt =====
-- Sockets that are connected to the peer under whose address they stand (network/broadcaster.cpp, lines
-- 13 to 43).
use dag_rider.Prelude.{
  ℕ, ◌≡◌, refl, ap, ◌∙◌, sym, List, [], ◌∷◌, Bool, Option, none, some, All, All-append, All-map,
  ◌==◌, Bool-cases, inl, inr, ◌⊎◌, ==→eq,
}
use dag_rider.Containers.{find}
use dag_rider.Containers.Hashed
use dag_rider.Containers.Hashed.{find-insert}
use dag_rider.Model.Committee.{Endpoint}
use dag_rider.Network.Broadcaster.{Broadcaster}
use dag_rider.Network.Coroutines.{deliver}

abbrev Sockets : Type 0
Sockets = List (ℕ × Option Endpoint)

-- The peer of a socket stands under its own address, and all that was written went to such a peer.
pub record IsSound (b : Broadcaster) : Type 0 where
  pub homes : (a : ℕ) (p : Endpoint) → find a b.connections ≡ some (some p) → p.address ≡ a
  pub kept :
      All (λ (w : Endpoint × List ℕ). find w.0.address b.connections ≡ some (some w.0)) b.written

find-opened :
    (a a' : ℕ) (socket : Option Endpoint) (m : Sockets) (p : Endpoint)
    → find a' (Hashed.insert a socket m) ≡ some (some p)
    → ((a ≡ a') × (socket ≡ some p)) ⊎ (find a' m ≡ some (some p))
find-opened a a' socket m p h = elim (Bool-cases (a == a')) [
  | inl same ↦
      let e : find a' (Hashed.insert a socket m) ≡ some socket =
        find-insert a a' socket m ∙ rw same refl in
      inl (==→eq a a' same, cc)
  | inr other ↦
      let e : find a' (Hashed.insert a socket m) ≡ find a' m =
        find-insert a a' socket m ∙ rw other refl in
      inr (sym e ∙ h)
]

find-kept :
    (a a' : ℕ) (socket : Option Endpoint) (m : Sockets) (p : Endpoint)
    → ((p : Endpoint) → find a m ≡ some (some p) → ⊥)
    → find a' m ≡ some (some p)
    → find a' (Hashed.insert a socket m) ≡ some (some p)
find-kept a a' socket m p free h = elim (Bool-cases (a == a')) [
  | inl same ↦ absurd (free p (ap (λ k. find k m) (==→eq a a' same) ∙ h))
  | inr other ↦ find-insert a a' socket m ∙ rw other h
]

-- An address that has no connected socket gets one, or one to be connected.
pub opened-IsSound :
    (a : ℕ) (socket : Option Endpoint) (b : Broadcaster)
    → IsSound b
    → ((p : Endpoint) → find a b.connections ≡ some (some p) → ⊥)
    → ((p : Endpoint) → socket ≡ some p → p.address ≡ a)
    → IsSound (record b { connections = Hashed.insert a socket b.connections })
opened-IsSound a socket b ok free own = record {
  homes = λ a' p h. elim (find-opened a a' socket b.connections p h) [
    | inl (same, e) ↦ own p e ∙ same
    | inr e ↦ ok.homes a' p e
  ];
  kept =
      All-map _ _ b.written
        (λ (w : Endpoint × List ℕ) h. find-kept a w.0.address socket b.connections w.0 free h)
        ok.kept;
}

pub deliver-IsSound :
    (done : Bool) (a : ℕ) (socket : Option Endpoint) (message : List ℕ) (b : Broadcaster)
    → find a b.connections ≡ some socket
    → IsSound b
    → IsSound (deliver done socket message b)
      × ((deliver done socket message b).connections ≡ b.connections)
unfolding deliver
deliver-IsSound done a none message b known ok = (ok, refl)
deliver-IsSound done a (some peer) message b known ok =
    let own : peer.address ≡ a = ok.homes a peer known in
    elim (Bool-cases done) [
      | inl written ↦ rw written (
        record {
          homes = ok.homes;
          kept =
              All-append _ b.written ((peer, message) ∷ []) ok.kept
                (ap (λ k. find k b.connections) own ∙ known, tt);
        },
        refl,
      )
      | inr lost ↦ rw lost (ok, refl)
    ]
