-- ===== src/Network/Coroutines/Sequential.antt =====
-- Coroutines that are run one after another do what `send` does (network/broadcaster.cpp).
use dag_rider.Prelude.{
  ℕ, ◌≡◌, refl, ap, ◌∙◌, sym, List, [], ◌∷◌, ◌++◌, map, Bool, true, false, Option, none, some,
  arith, ==_refl, Bool-cases, Option-cases, inl, inr, length,
}
use mathlib.Core.List.{append_assoc}
use dag_rider.Containers.{find}
use dag_rider.Containers.Hashed
use dag_rider.Containers.Hashed.{find-insert}
use dag_rider.Model.Committee.{Endpoint}
use dag_rider.Network.Broadcaster.{Broadcaster, Outcome, write, send, send_each}
use dag_rider.Network.Coroutines.{
  Coroutine, begun, connecting, writing, returned, deliver, resume, resume_at, run_all,
}

insert-insert {ℓ} :
    {V : Type ℓ} (k : ℕ) (v w : V) (m : List (ℕ × V))
    → Hashed.insert k w (Hashed.insert k v m) ≡ Hashed.insert k w m
unfolding Hashed.insert
insert-insert k v w [] = ground (arith, ==_refl k)
insert-insert k v w ((j, x) ∷ m) = ground (arith, insert-insert k v w m)

deliver-write :
    (o : Outcome) (socket : Option Endpoint) (message : List ℕ) (b : Broadcaster)
    → deliver o.writes socket message b ≡ write o socket message b
unfolding deliver write
deliver-write o none message b = refl
deliver-write o (some peer) message b = refl

-- A coroutine that goes on alone.
unfoldable run_alone : List Bool → Coroutine → Broadcaster → Coroutine × Broadcaster
run_alone [] c b = (c, b)
run_alone (ok ∷ oks) c b = run_alone oks (resume ok c b).0 (resume ok c b).1

writing-write :
    (o : Outcome) (e : Endpoint) (socket : Option Endpoint) (message : List ℕ) (b : Broadcaster)
    → find e.address b.connections ≡ some socket
    → resume o.writes (writing e message) b ≡ (returned, write o socket message b)
unfolding resume
writing-write o e socket message b known =
    rw (known, resume) (ap (λ (x : Broadcaster). (returned, x)) (deliver-write o socket message b))

begun-known :
    (ok : Bool) (e : Endpoint) (socket : Option Endpoint) (message : List ℕ) (b : Broadcaster)
    → find e.address b.connections ≡ some socket
    → resume ok (begun e message) b ≡ (writing e message, b)
unfolding resume
begun-known ok e socket message b known = rw (known, resume) refl

begun-new :
    (ok : Bool) (e : Endpoint) (message : List ℕ) (b : Broadcaster)
    → find e.address b.connections ≡ none
    → resume ok (begun e message) b ≡ (
      connecting e message,
      record b { connections = Hashed.insert e.address none b.connections },
    )
unfolding resume
begun-new ok e message b unknown = rw (unknown, resume) refl

connecting-true :
    (e : Endpoint) (message : List ℕ) (b : Broadcaster)
    → resume true
        (connecting e message)
        (record b { connections = Hashed.insert e.address none b.connections })
      ≡ (
        writing e message,
        record b { connections = Hashed.insert e.address (some e) b.connections },
      )
unfolding resume
connecting-true e message b =
    ap (λ (m : List (ℕ × Option Endpoint)). (writing e message, record b { connections = m }))
      (insert-insert e.address none (some e) b.connections)

connecting-false :
    (e : Endpoint) (message : List ℕ) (b : Broadcaster)
    → resume false (connecting e message) b ≡ (returned, b)
unfolding resume
connecting-false e message b = refl

-- A wait that ends with the coroutine and the broadcaster `r` goes on from there.
go_on :
    {r : Coroutine × Broadcaster} (ok : Bool) (oks : List Bool) (c : Coroutine) (b : Broadcaster)
    → resume ok c b ≡ r
    → run_alone (ok ∷ oks) c b ≡ run_alone oks r.0 r.1
unfolding run_alone
go_on ok oks c b e = ap (λ (r : Coroutine × Broadcaster). run_alone oks r.0 r.1) e

finish : (c : Coroutine) (b : Broadcaster) → run_alone [] c b ≡ (c, b)
unfolding run_alone
finish c b = refl

-- A call that is never interrupted does what `send` does, for some ends of its waits.
run_alone-send :
    (o : Outcome) (e : Endpoint) (message : List ℕ) (b : Broadcaster)
    → (oks : List Bool) × (run_alone oks (begun e message) b ≡ (returned, send o e message b))
unfolding send
run_alone-send o e message b = elim (Option-cases (find e.address b.connections)) [
  | inl unknown ↦
      let opened = begun-new true e message b unknown in
      let waits : Broadcaster = record b {
        connections = Hashed.insert e.address none b.connections;
      } in
      elim (Bool-cases o.connects) [
        | inl up ↦
            let b' : Broadcaster = record b {
              connections = Hashed.insert e.address (some e) b.connections;
            } in
            (
              true ∷ true ∷ o.writes ∷ [],
              go_on true (true ∷ o.writes ∷ []) (begun e message) b opened
                  ∙ go_on true (o.writes ∷ []) (connecting e message) waits
                      (connecting-true e message b)
                  ∙ go_on o.writes [] (writing e message) b' (
                      writing-write o e (some e) message b'
                        (ground (arith, find-insert e.address e.address (some e) b.connections)))
                  ∙ finish returned (write o (some e) message b')
                  ∙ rw (unknown, send) (rw up refl),
            )
        | inr down ↦ (
          true ∷ false ∷ [],
          go_on true (false ∷ []) (begun e message) b opened
              ∙ go_on false [] (connecting e message) waits (connecting-false e message waits)
              ∙ finish returned waits
              ∙ rw (unknown, send) (rw down refl),
        )
      ]
  | inr (socket, known) ↦ (
    true ∷ o.writes ∷ [],
    go_on true (o.writes ∷ []) (begun e message) b (begun-known true e socket message b known)
        ∙ go_on o.writes [] (writing e message) b (writing-write o e socket message b known)
        ∙ finish returned (write o socket message b)
        ∙ rw (known, send) refl,
  )
]

-- The coroutine after `done`.
resume_at-append :
    (done cs : List Coroutine) (c : Coroutine) (ok : Bool) (b : Broadcaster)
    → resume_at (length done) ok (done ++ c ∷ cs) b
      ≡ (done ++ (resume ok c b).0 ∷ cs, (resume ok c b).1)
unfolding resume_at
resume_at-append [] cs c ok b = refl
resume_at-append (d ∷ done) cs c ok b = rw (resume_at-append done cs c ok b) refl

-- The number of the coroutine, with each end of its waits.
abbrev numbered : ℕ → List Bool → List (ℕ × Bool)
numbered i oks = map (λ ok. (i, ok)) oks

run_all-numbered :
    (oks : List Bool) (schedule : List (ℕ × Bool)) (done cs : List Coroutine) (c : Coroutine)
    (b : Broadcaster)
    → run_all (numbered (length done) oks ++ schedule) (done ++ c ∷ cs) b
      ≡ run_all schedule (done ++ (run_alone oks c b).0 ∷ cs) (run_alone oks c b).1
unfolding run_all run_alone
run_all-numbered [] schedule done cs c b = refl
run_all-numbered (ok ∷ oks) schedule done cs c b =
    ap
      (λ (r : List Coroutine × Broadcaster).
        run_all (numbered (length done) oks ++ schedule) r.0 r.1)
      (resume_at-append done cs c ok b)
    ∙ run_all-numbered oks schedule done cs (resume ok c b).0 (resume ok c b).1

abbrev pub spawned : List ℕ → List Endpoint → List Coroutine
spawned message es = map (λ e. begun e message) es

abbrev pub ended : List Endpoint → List Coroutine
ended es = map (λ _. returned) es

after_done :
    (net : Endpoint → Outcome) (done : List Coroutine) (es : List Endpoint) (message : List ℕ)
    (b : Broadcaster)
    → (schedule : List (ℕ × Bool)) × (run_all schedule (done ++ spawned message es) b
        ≡ (done ++ ended es, send_each net es message b))
unfolding run_all send_each
after_done net done [] message b = ([], refl)
after_done net done (e ∷ es) message b =
    let (oks, alone) = run_alone-send (net e) e message b in
    let (schedule, rest) =
      after_done net (done ++ returned ∷ []) es message (send (net e) e message b) in
    (
      numbered (length done) oks ++ schedule,
      run_all-numbered oks schedule done (spawned message es) (begun e message) b
          ∙ ap
              (λ (r : Coroutine × Broadcaster).
                run_all schedule (done ++ r.0 ∷ spawned message es) r.1)
              alone
          ∙ ap (λ cs. run_all schedule cs (send (net e) e message b))
              (sym (append_assoc done (returned ∷ []) (spawned message es)))
          ∙ rest
          ∙ ap (λ (cs : List Coroutine). (cs, send_each net es message (send (net e) e message b)))
              (append_assoc done (returned ∷ []) (ended es)),
    )

-- Coroutines that send a message to a list of endpoints have, whatever the network answers to a call of
-- `send`, a schedule that makes all of them return and leaves the broadcaster as `send_each` leaves it,
-- which sends to one endpoint after the other.
pub run_all-send_each :
    (net : Endpoint → Outcome) (es : List Endpoint) (message : List ℕ) (b : Broadcaster)
    → (schedule : List (ℕ × Bool)) × (run_all schedule (spawned message es) b
        ≡ (ended es, send_each net es message b))
run_all-send_each net es message b = after_done net [] es message b
