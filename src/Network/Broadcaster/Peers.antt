-- ===== src/Network/Broadcaster/Peers.antt =====
-- Who gets what a broadcaster sends (network/broadcaster.cpp, lines 12 to 43).
use dag_rider.Prelude.{
  ℕ, ◌≡◌, refl, ap, ◌∙◌, subst, List, [], ◌∷◌, ◌++◌, Option, none, some, arith, All, inl, inr, sym,
  if◌then◌else◌, Bool-cases, All-append,
}
use mathlib.Core.List.{append_assoc, append-nil}
use dag_rider.Containers.{find}
use dag_rider.Containers.Hashed.{find-insert}
use dag_rider.Containers.Hashed
use dag_rider.Model.Committee.{Endpoint}
use dag_rider.Network.Broadcaster.{Outcome, Broadcaster, write, send, send_each}

-- To whom a message goes that is sent, any number of times, to an address with this socket: to
-- nobody, or as copies to the peer.
unfoldable pub GoesTo :
    Option Endpoint → List ℕ → List (Endpoint × List ℕ) → List (Endpoint × List ℕ) → Type 0
GoesTo none message before after = after ≡ before
GoesTo (some peer) message before after =
    (more : List (Endpoint × List ℕ)) × (after ≡ before ++ more)
    × All (λ (w : Endpoint × List ℕ). w ≡ (peer, message)) more

send-known :
    (o : Outcome) (e : Endpoint) (message : List ℕ) (b : Broadcaster) (socket : Option Endpoint)
    → find e.address b.connections ≡ some socket
    → send o e message b ≡ write o socket message b
unfolding send
send-known o e message b socket known = rw (known, send) refl

write-GoesTo :
    (o : Outcome) (message : List ℕ) (b : Broadcaster) (socket : Option Endpoint)
    → GoesTo socket message b.written (write o socket message b).written
unfolding write GoesTo
write-GoesTo o message b none = refl
write-GoesTo o message b (some peer) = elim (Bool-cases o.writes) [
  | inl h ↦ rw h ((peer, message) ∷ [], refl, (refl, tt))
  | inr h ↦ rw h ([], sym (append-nil b.written), tt)
]

write-connections :
    (o : Outcome) (message : List ℕ) (b : Broadcaster) (socket : Option Endpoint)
    → (write o socket message b).connections ≡ b.connections
unfolding write
write-connections o message b none = refl
write-connections o message b (some peer) = ground arith

GoesTo-trans :
    (socket : Option Endpoint) (message : List ℕ) (x y z : List (Endpoint × List ℕ))
    → GoesTo socket message x y
    → GoesTo socket message y z
    → GoesTo socket message x z
unfolding GoesTo
GoesTo-trans none message x y z g h = h ∙ g
GoesTo-trans (some peer) message x y z (m, e, ms) (n, f, ns) =
    (m ++ n, f ∙ ap (λ w. w ++ n) e ∙ append_assoc x m n, All-append _ m n ms ns)

-- Once an address has a socket, what is sent to the address, whatever the ports and whatever the
-- network answers, changes nothing in that: all goes to the peer of the first connection, or, where
-- the first connection failed, to nobody.
pub send_each-known :
    (net : Endpoint → Outcome) (es : List Endpoint) (message : List ℕ) (b : Broadcaster) (a : ℕ)
    (socket : Option Endpoint)
    → All (λ (e : Endpoint). e.address ≡ a) es
    → find a b.connections ≡ some socket
    → (find a (send_each net es message b).connections ≡ some socket)
      × GoesTo socket message b.written (send_each net es message b).written
unfolding send_each GoesTo
send_each-known net [] message b a none same known = (known, refl)
send_each-known net [] message b a (some p) same known =
    (known, ([], sym (append-nil b.written), tt))
send_each-known net (e ∷ es) message b a socket same known =
    let sent =
      send-known (net e) e message b socket (ap (λ x. find x b.connections) same.0 ∙ known) in
    let rest =
      send_each-known net es message (write (net e) socket message b) a socket same.1
        (ap (find a) (write-connections (net e) message b socket) ∙ known) in
    subst
      (λ (x : Broadcaster).
        (find a (send_each net es message x).connections ≡ some socket)
        × GoesTo socket message b.written (send_each net es message x).written)
      (sym sent)
      (
        rest.0,
        GoesTo-trans socket message b.written (write (net e) socket message b).written _
            (write-GoesTo (net e) message b socket) rest.1,
      )

abbrev pub new_socket : Outcome → Endpoint → Option Endpoint
new_socket o e = if o.connects then some e else none

opened :
    (e : Endpoint) (b : Broadcaster) (socket : Option Endpoint)
    → find e.address (Hashed.insert e.address socket b.connections) ≡ some socket
opened e b socket = ground (arith, find-insert e.address e.address socket b.connections)

send-new :
    (o : Outcome) (e : Endpoint) (message : List ℕ) (b : Broadcaster)
    → find e.address b.connections ≡ none
    → (find e.address (send o e message b).connections ≡ some (new_socket o e))
      × GoesTo (new_socket o e) message b.written (send o e message b).written
unfolding send GoesTo
send-new o e message b unknown = elim (Bool-cases o.connects) [
  | inl h ↦
      let b' : Broadcaster = record b {
        connections = Hashed.insert e.address (some e) b.connections;
      } in
      rw (unknown, send)
        (rw h (
          ap (find e.address) (write-connections o message b' (some e)) ∙ opened e b (some e),
          write-GoesTo o message b' (some e),
        ))
  | inr h ↦ rw (unknown, send) (rw h (opened e b none, refl))
]

-- A broadcaster that has no socket for the address that all endpoints of a committee share sends
-- to the first of them alone: every copy of the message, as many as there are, goes to it, or, if
-- it cannot be connected to, nobody gets any; and the address keeps the socket to that endpoint, or
-- the one that failed.
pub send_each-shared_address :
    (net : Endpoint → Outcome) (e : Endpoint) (es : List Endpoint) (message : List ℕ)
    (b : Broadcaster)
    → All (λ (x : Endpoint). x.address ≡ e.address) es
    → find e.address b.connections ≡ none
    → (find e.address (send_each net (e ∷ es) message b).connections ≡ some (new_socket (net e) e))
      × GoesTo (new_socket (net e) e) message b.written (send_each net (e ∷ es) message b).written
unfolding send_each
send_each-shared_address net e es message b same unknown =
    let first = send-new (net e) e message b unknown in
    let rest =
      send_each-known net es message (send (net e) e message b) e.address (new_socket (net e) e)
        same first.0 in
    (rest.0, GoesTo-trans (new_socket (net e) e) message b.written _ _ first.1 rest.1)
