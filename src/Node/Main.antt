-- ===== src/Node/Main.antt =====
-- node/main.cpp, lines 56 to 75: what the program of a node does with its client and its coordinator,
-- once its options are read.
use dag_rider.Prelude.{ℕ, ◌≡◌, ◌≢◌, refl, ap, List, Bool, true, Option, none, some, All, ◌>>=◌}
use dag_rider.Model.External.{External}
use dag_rider.Model.Committee.{Committee, Endpoint, get_node_address}
use dag_rider.Model.Validator.{Platform, any_address}
use dag_rider.Model.BuiltIn
use dag_rider.Model.BuiltIn.Members.{members, create-some}
use dag_rider.Network.Receiver.Listening.{Event, failed, start-returns}
use dag_rider.Exchange.Coordinator.{spawn}
use dag_rider.Node.Client.{Client, Ended, send, run}

module _ (ext : External) (platform : Platform) where
  open platform use {make_address}

  -- `client.send()`, the call of the coordinator, and `io_context.run()` after it.
  unfoldable pub run_client :
      (Endpoint → Bool) → ℕ → Committee → Client → List Event → List Ended → Client
  unfolding spawn
  run_client opens node_id committee client events ends =
      elim (spawn opens node_id committee events) [
        | none ↦ send client
        | some _ ↦ run ends (send client)
      ]

  -- The client, after what happens on the network: the events of the coordinator's receiver, and the ends
  -- of the waits of the client, whose io_context runs last. `none`: an exception.
  unfoldable pub main :
      (Endpoint → Bool) → ℕ → List ℕ → Client → List Event → List Ended → Option Client
  unfolding BuiltIn.create run_client
  main opens node_id address client events ends = do
    _ ← make_address address
    committee ← BuiltIn.create ext platform
    some (run_client opens node_id committee client events ends)

  spawn-none :
      (opens : Endpoint → Bool) (node_id : ℕ) (committee : Committee) (events : List Event)
      → opens (get_node_address committee node_id) ≡ true
      → All (λ e. e ≢ failed) events
      → spawn opens node_id committee events ≡ none
  unfolding spawn
  spawn-none opens node_id committee events ready well =
      rw (start-returns (opens (get_node_address committee node_id)) events well, spawn)
        (rw ready refl)

  run_client-send :
      (opens : Endpoint → Bool) (node_id : ℕ) (committee : Committee) (client : Client)
      (events : List Event) (ends : List Ended)
      → opens (get_node_address committee node_id) ≡ true
      → All (λ e. e ≢ failed) events
      → run_client opens node_id committee client events ends ≡ send client
  unfolding run_client
  run_client-send opens node_id committee client events ends ready well =
      rw (spawn-none opens node_id committee events ready well, run_client) refl

  -- A node whose receiver opens at the address of its validator, and on which no accept fails, never runs
  -- its client: whatever the network does, the client still waits to be connected and has sent nothing.
  -- Taken: the node's address and "0.0.0.0" are read as addresses.
  pub main-waits :
      (opens : Endpoint → Bool) (node_id : ℕ) (address : List ℕ) (client : Client) (a b : ℕ)
      (events : List Event) (ends : List Ended)
      → make_address address ≡ some a
      → make_address any_address ≡ some b
      → opens (get_node_address (members ext platform b) node_id) ≡ true
      → All (λ e. e ≢ failed) events
      → main opens node_id address client events ends ≡ some (send client)
  unfolding main
  main-waits opens node_id address client a b events ends at_a at_b ready well = rw at_a (
      rw (create-some ext platform b at_b) (
        ap some
          (run_client-send opens node_id (members ext platform b) client events ends ready well)))
