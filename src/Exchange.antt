-- ===== src/Exchange.antt =====
-- src/vertex: vertices received go to a promise, one that is given goes to the network.
-- vertex/vertex_message_handler.cpp and vertex/vertex_broadcaster.cpp, lines 25 to 35.
pub mod Promise
pub mod Coordinator
use dag_rider.Prelude.{ℕ, List, [], ◌∷◌, Option, none, some, ◌>>=◌}
use dag_rider.Model.External.{External}
use dag_rider.Model.Input.{Input}
use dag_rider.Model.Vertex.{Vertex, to_json}
use dag_rider.Model.Reading.{from_json}
use dag_rider.Model.Committee.{Committee, Endpoint, get_node_addresses}
use dag_rider.Network.Broadcaster.{Broadcaster, Outcome, send}

-- A promise and the value that it was given, if it was. The second `set_value` throws.
unfoldable pub set_value : Option Vertex → Vertex → Option (Option Vertex)
set_value none vertex = some (some vertex)
set_value (some _) vertex = none

module _ (ext : External) (input : Input ext) where
  open input use {parse, get_string}

  -- VertexReceiverHandler. `none`: an exception, which ends the connection.
  unfoldable pub dispatch : Option Vertex → List ℕ → Option (Option Vertex)
  unfolding set_value from_json
  dispatch promise serialized = do
    j ← parse serialized
    vertex ← from_json ext input j
    set_value promise vertex

  -- The loop over the addresses in `run` of VertexBroadcaster, the coroutines run one after another.
  -- `send` takes a std::string: the JSON is converted for each call.
  unfoldable pub send_json :
      (Endpoint → Outcome) → List Endpoint → ext.Json → Broadcaster → Option Broadcaster
  unfolding send
  send_json net [] json network = some network
  send_json net (e ∷ es) json network = do
    text ← get_string json
    send_json net es json (send (net e) e text network)

  unfoldable pub broadcast :
      (Endpoint → Outcome) → Committee → Vertex → Broadcaster → Option Broadcaster
  unfolding send_json get_node_addresses to_json
  broadcast net committee vertex network =
      send_json net (get_node_addresses committee) (to_json ext vertex) network
