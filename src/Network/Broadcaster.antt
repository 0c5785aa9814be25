-- ===== src/Network/Broadcaster.antt =====
-- network/broadcaster.hpp and network/broadcaster.cpp: `send`, one call at a time. What the network
-- answers to a call, an argument here, is not in the repository.
pub mod Peers
use dag_rider.Prelude.{ℕ, List, [], ◌∷◌, ◌++◌, Bool, Option, none, some, if◌then◌else◌}
use dag_rider.Containers.{find}
use dag_rider.Containers.Hashed
use dag_rider.Model.Committee.{Endpoint}

-- Does async_connect succeed, and does async_write on a socket that is connected?
pub record Outcome : Type 0 where
  pub connects : Bool
  pub writes : Bool

-- `connections` maps an address to a socket: the peer that it is connected to, if it is. `written`
-- collects what was written, with the peer that gets it.
pub record Broadcaster : Type 0 where
  pub connections : List (ℕ × Option Endpoint)
  pub written : List (Endpoint × List ℕ)

abbrev pub create : Broadcaster
create = record { connections = []; written = [] }

-- async_write fails on a socket that is not connected; an error is caught and leaves no trace.
unfoldable pub write : Outcome → Option Endpoint → List ℕ → Broadcaster → Broadcaster
write o none message b = b
write o (some peer) message b =
    if o.writes then record b { written = b.written ++ (peer, message) ∷ [] } else b

unfoldable pub send : Outcome → Endpoint → List ℕ → Broadcaster → Broadcaster
unfolding write
send o e message b = elim (find e.address b.connections) [
  | some socket ↦ write o socket message b
  | none ↦
      let connected = record b { connections = Hashed.insert e.address (some e) b.connections } in
      let failed = record b { connections = Hashed.insert e.address none b.connections } in
      if o.connects then write o (some e) message connected else failed
]

-- The loop over the endpoints of a committee, with what the network answers to each.
unfoldable pub send_each : (Endpoint → Outcome) → List Endpoint → List ℕ → Broadcaster → Broadcaster
unfolding send
send_each net [] message b = b
send_each net (e ∷ es) message b = send_each net es message (send (net e) e message b)
