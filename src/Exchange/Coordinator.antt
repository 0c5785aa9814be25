-- ===== src/Exchange/Coordinator.antt =====
-- vertex/vertex_coordinator.cpp: the receiver of vertices is started, and then the broadcaster spawned.
use dag_rider.Prelude.{ℕ, List, Bool, Option, some, ◌>>=◌}
use dag_rider.Model.Committee.{Committee, Endpoint, get_node_address}
use dag_rider.Network.Receiver.Listening.{Event, start}

-- The committee that the broadcaster is spawned with, and the events to come. `none`: the call has not
-- returned, and no broadcaster is spawned. `opens`: an acceptor can be opened at an endpoint.
unfoldable pub spawn :
    (Endpoint → Bool) → ℕ → Committee → List Event → Option (Committee × List Event)
unfolding get_node_address start
spawn opens node_id committee events = do
  rest ← start (opens (get_node_address committee node_id)) events
  some (committee, rest)
