-- ===== src/Network/Coroutines/Sockets.antt =====
-- The sockets of a broadcaster whose coroutines go on in any order (network/broadcaster.cpp, lines 12
-- to 43).
use dag_rider.Prelude.{
  ℕ, zero, suc, ◌+◌, ◌≤◌, ◌≡◌, refl, ap, ◌∙◌, sym, List, [], ◌∷◌, Bool, Option, none, some, arith,
  All, All-mem, Memᴰ, if◌then◌else◌, ◌==◌, Bool-cases, Option-cases, inl, inr, ==→eq, ==_refl,
}
use dag_rider.Containers.{find}
use dag_rider.Containers.Hashed
use dag_rider.Containers.Hashed.{find-insert}
use dag_rider.Model.Committee.{Endpoint}
use dag_rider.Network.Broadcaster.{Broadcaster}
use dag_rider.Network.Broadcaster
use dag_rider.Network.Coroutines.{
  Coroutine, begun, connecting, writing, returned, resume, resume_at, run_all,
}
use dag_rider.Network.Coroutines.Sound.{IsSound, opened-IsSound, deliver-IsSound}

-- The coroutines that wait to be connected to an address.
abbrev waits : ℕ → Coroutine → ℕ
waits a (connecting e message) = if e.address == a then 1 else 0
waits a _ = 0

abbrev waiting : ℕ → List Coroutine → ℕ
waiting a [] = 0
waiting a (c ∷ cs) = waits a c + waiting a cs

abbrev Sockets : Type 0
Sockets = List (ℕ × Option Endpoint)

-- One may, while the address has a socket that is not connected.
abbrev room : Option (Option Endpoint) → ℕ
room (some none) = 1
room _ = 0

-- With as many of the other coroutines waiting as given, for each address.
record Keeps (others : ℕ → ℕ) (c : Coroutine) (b : Broadcaster) : Type 0 where
  sound : IsSound b
  rooms : (a : ℕ) → waits a c + others a ≤ room (find a b.connections)

room-insert :
    (a a' : ℕ) (socket : Option Endpoint) (m : Sockets)
    → room (find a' (Hashed.insert a socket m))
      ≡ (if a == a' then room (some socket) else room (find a' m))
room-insert a a' socket m = ap room (find-insert a a' socket m) ∙ ground arith

begun-rooms :
    (e : Endpoint) (others : ℕ → ℕ) (b : Broadcaster)
    → find e.address b.connections ≡ none
    → ((a : ℕ) → 0 + others a ≤ room (find a b.connections))
    → (a : ℕ)
    → (if e.address == a then 1 else 0) + others a
      ≤ room (find a (Hashed.insert e.address none b.connections))
begun-rooms e others b unknown rooms a = elim (Bool-cases (e.address == a)) [
  | inl same ↦
      let empty : room (find a b.connections) ≡ 0 =
        ap room (ap (λ k. find k b.connections) (sym (==→eq e.address a same)) ∙ unknown) in
      ground (arith, rooms a, empty, room-insert e.address a none b.connections)
  | inr other ↦ ground (arith, rooms a, room-insert e.address a none b.connections)
]

alone :
    (e : Endpoint) (others : ℕ → ℕ) (b : Broadcaster) (p : Endpoint)
    → ((a : ℕ) → (if e.address == a then 1 else 0) + others a ≤ room (find a b.connections))
    → find e.address b.connections ≡ some (some p)
    → ⊥
alone e others b p rooms known =
    let here : 1 + others e.address ≤ room (find e.address b.connections) =
      rw (==_refl e.address) at (rooms e.address) in
    let full : room (find e.address b.connections) ≡ 0 = ap room known in omega arith

room_le : (socket : Option (Option Endpoint)) → room socket ≤ 1
room_le none = omega arith
room_le (some none) = omega arith
room_le (some (some p)) = omega arith

connected-rooms :
    (e : Endpoint) (others : ℕ → ℕ) (b : Broadcaster)
    → ((a : ℕ) → (if e.address == a then 1 else 0) + others a ≤ room (find a b.connections))
    → (a : ℕ) → 0 + others a ≤ room (find a (Hashed.insert e.address (some e) b.connections))
connected-rooms e others b rooms a =
    ground (
      arith,
      rooms a,
      room_le (find a b.connections),
      room-insert e.address a (some e) b.connections,
    )

resume-Keeps :
    (done : Bool) (c : Coroutine) (b : Broadcaster) (others : ℕ → ℕ)
    → Keeps others c b
    → Keeps others (resume done c b).0 (resume done c b).1
unfolding resume
resume-Keeps done (begun e message) b others ok =
    elim (Option-cases (find e.address b.connections)) [
      | inl unknown ↦
          rw (unknown, resume)
            (record {
              sound = opened-IsSound e.address none b ok.sound (λ p h. cc) (λ p h. cc);
              rooms = begun-rooms e others b unknown ok.rooms;
            })
      | inr (socket, known) ↦ rw (known, resume) (record { sound = ok.sound; rooms = ok.rooms })
    ]
resume-Keeps done (connecting e message) b others ok = elim (Bool-cases done) [
  | inl up ↦ rw up (record {
    sound =
        opened-IsSound e.address (some e) b ok.sound (λ p h. alone e others b p ok.rooms h)
          (λ p h. cc);
    rooms = connected-rooms e others b ok.rooms;
  })
  | inr down ↦ rw down (record { sound = ok.sound; rooms = λ a. omega (arith, ok.rooms a) })
]
resume-Keeps done (writing e message) b others ok =
    elim (Option-cases (find e.address b.connections)) [
      | inl unknown ↦ rw (unknown, resume) (record { sound = ok.sound; rooms = ok.rooms })
      | inr (socket, known) ↦
          let (sound, same) = deliver-IsSound done e.address socket message b known ok.sound in
          rw (known, resume) (record { sound = sound; rooms = λ a. rw same (ok.rooms a) })
    ]
resume-Keeps done returned b others ok = ok

resume_at-IsSound :
    (i : ℕ) (done : Bool) (cs : List Coroutine) (b : Broadcaster) (others : ℕ → ℕ)
    → IsSound b
    → ((a : ℕ) → waiting a cs + others a ≤ room (find a b.connections))
    → IsSound (resume_at i done cs b).1
      × ((a : ℕ)
          → waiting a (resume_at i done cs b).0 + others a
            ≤ room (find a (resume_at i done cs b).1.connections))
unfolding resume_at
resume_at-IsSound zero done [] b others sound rooms = (sound, rooms)
resume_at-IsSound (suc i) done [] b others sound rooms = (sound, rooms)
resume_at-IsSound zero done (c ∷ cs) b others sound rooms =
    let kept =
      resume-Keeps done c b (λ a. waiting a cs + others a)
        (record { sound = sound; rooms = λ a. omega (arith, rooms a) }) in
    (kept.sound, λ a. omega (arith, kept.rooms a))
resume_at-IsSound (suc i) done (c ∷ cs) b others sound rooms =
    let (sound', rooms') =
      resume_at-IsSound i done cs b (λ a. waits a c + others a) sound
        (λ a. omega (arith, rooms a)) in
    (sound', λ a. omega (arith, rooms' a))

run_all-IsSound :
    (schedule : List (ℕ × Bool)) (cs : List Coroutine) (b : Broadcaster)
    → IsSound b
    → ((a : ℕ) → waiting a cs + 0 ≤ room (find a b.connections))
    → IsSound (run_all schedule cs b).1
unfolding run_all
run_all-IsSound [] cs b sound rooms = sound
run_all-IsSound ((i, ok) ∷ schedule) cs b sound rooms =
    let (sound', rooms') = resume_at-IsSound i ok cs b (λ a. 0) sound rooms in
    run_all-IsSound schedule (resume_at i ok cs b).0 (resume_at i ok cs b).1 sound' rooms'

-- A call of `send` that has not begun.
abbrev pub IsBegun : Coroutine → Type 0
IsBegun c = (e : Endpoint) × (message : List ℕ) × (c ≡ begun e message)

none_waits : (a : ℕ) (cs : List Coroutine) → All IsBegun cs → waiting a cs ≡ 0
none_waits a [] h = refl
none_waits a (c ∷ cs) h =
    let (e, message, same) = h.0 in
    let none_here : waits a c ≡ 0 = ap (waits a) same in omega (arith, none_waits a cs h.1)

-- However the coroutines of a new broadcaster take turns, and whatever their waits end with, no address
-- is ever written to by two sockets: all that goes to an address goes to one peer.
pub run_all-one_peer :
    (schedule : List (ℕ × Bool)) (cs : List Coroutine) (v w : Endpoint × List ℕ)
    → All IsBegun cs
    → Memᴰ v (run_all schedule cs Broadcaster.create).1.written
    → Memᴰ w (run_all schedule cs Broadcaster.create).1.written
    → v.0.address ≡ w.0.address
    → v.0 ≡ w.0
run_all-one_peer schedule cs v w begins m n same =
    let sound =
      run_all-IsSound schedule cs Broadcaster.create
        (record { homes = λ a p h. absurd cc; kept = tt })
        (λ a. omega (arith, none_waits a cs begins)) in
    let e =
      All-mem
        (λ (x : Endpoint × List ℕ).
          find x.0.address (run_all schedule cs Broadcaster.create).1.connections ≡ some (some x.0))
        (run_all schedule cs Broadcaster.create).1.written sound.kept m in
    let f =
      All-mem
        (λ (x : Endpoint × List ℕ).
          find x.0.address (run_all schedule cs Broadcaster.create).1.connections ≡ some (some x.0))
        (run_all schedule cs Broadcaster.create).1.written sound.kept n in
    cc (e, f, ap (λ a. find a (run_all schedule cs Broadcaster.create).1.connections) same)
