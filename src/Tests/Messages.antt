-- ===== src/Tests/Messages.antt =====
-- The theorems on the network, on JSON and on what handles transactions and vertices received.
use dag_rider.Prelude.{ℕ, ◌≡◌, refl, List, [], ◌∷◌, ◌++◌, true, Option, none, some, arith}
use dag_rider.Model.Input.{Input}
use dag_rider.Model.Block.{Block, Transaction}
use dag_rider.Model.Block
use dag_rider.Model.Vertex.{Vertex, to_json}
use dag_rider.Model.Reading.{from_json, from_json-to_json}
use dag_rider.Model.Committee.{Endpoint}
use dag_rider.Network.Broadcaster.{Broadcaster, Outcome, send_each}
use dag_rider.Network.Broadcaster
use dag_rider.Network.Receiver.{handle_connection}
use dag_rider.Network.Receiver.Lines.{stream, dispatch_all, handle_connection-stream}
use dag_rider.Transaction.{BlockBuilder, handle_transactions}
use dag_rider.Transaction.Batches.{received, IsBatched, handle_transactions-received}
use dag_rider.Transaction.Framing.{AreLines, received_by, handle_transactions-unframed}
use dag_rider.Transaction.Handlers.{TxReceiverHandler}
use dag_rider.Exchange
use dag_rider.Exchange.Promise.{vertex_of, handle_connection-promise}
use dag_rider.Tests.Samples.{four}
use dag_rider.Tests.Trees.{
  Tree, number, chars, object, end, field, lookup, string_of, number_of, trees,
}

-- 32 bytes.
abbrev padded : ℕ → List ℕ
padded n =
    0 ∷ 0 ∷ 0 ∷ 0 ∷ 0 ∷ 0 ∷ 0 ∷ 0 ∷ 0 ∷ 0 ∷ 0 ∷ 0 ∷ 0 ∷ 0 ∷ 0 ∷ 0 ∷ 0 ∷ 0 ∷ 0 ∷ 0 ∷ 0 ∷ 0 ∷ 0 ∷ 0
    ∷ 0 ∷ 0 ∷ 0 ∷ 0 ∷ 0 ∷ 0 ∷ 0 ∷ n ∷ []

abbrev document : Tree
document = object (
    field "hash" (chars (padded 9)) (
      field "owner" (chars (padded 10)) (
        field "block" (object (field "hash" end (field "transactions" end end)))
          (field "parents" end (field "round" (number 1) end)))))

-- A message is the document if it has a byte.
abbrev parse : List ℕ → Option Tree
parse [] = none
parse (_ ∷ _) = some document

abbrev reader : Input trees
reader = record {
  dump = λ j. 123 ∷ 125 ∷ [];
  parse = parse;
  at = lookup;
  items = λ j. [];
  get_string = string_of;
  get_hash = λ j. some 0;
  get_transaction = λ j. some (7 ∷ []);
  get_transactions = λ j. some [];
  get_round = number_of;
  get_pairs = λ j. none;
  get_id = number_of;
}

abbrev sample : Vertex
sample = record { hash = 9; owner = 10; block = Block.default; parents = []; round = 1 }

from_json-to_json_example : from_json trees reader (to_json trees sample) ≡ none
unfolding lookup
from_json-to_json_example = from_json-to_json trees reader sample (λ x fields. refl) (λ xs. refl)

sample_read : vertex_of trees reader (123 ∷ []) ≡ some sample
unfolding from_json lookup vertex_of
sample_read = refl

-- What follows a line that is no vertex is not read either.
handle_connection-promise_example :
    (handle_connection 5
        (Exchange.dispatch trees reader)
        none
        (stream ((125 ∷ []) ∷ (123 ∷ []) ∷ []) [])
      ≡ some (vertex_of trees reader (125 ∷ [])))
    × ((w : Vertex)
        → handle_connection 5
            (Exchange.dispatch trees reader)
            (some w)
            (stream ((125 ∷ []) ∷ (123 ∷ []) ∷ []) [])
          ≡ some (some w))
handle_connection-promise_example =
    handle_connection-promise trees reader (125 ∷ []) ((123 ∷ []) ∷ []) 5 (omega arith)
      (omega arith) (omega arith)

-- A handler that keeps what it gets.
abbrev keep : List (List ℕ) → List ℕ → Option (List (List ℕ))
keep seen message = some (seen ++ message ∷ [])

handle_connection-stream_example :
    handle_connection 3 keep [] (stream ((1 ∷ []) ∷ (2 ∷ 3 ∷ []) ∷ []) (4 ∷ []))
    ≡ some (dispatch_all keep [] ((1 ∷ []) ∷ (2 ∷ 3 ∷ []) ∷ []))
handle_connection-stream_example =
    handle_connection-stream keep 3 [] ((1 ∷ []) ∷ (2 ∷ 3 ∷ []) ∷ []) (4 ∷ []) (omega arith)
      (omega arith) (omega arith)

-- A network that never fails.
abbrev up : Endpoint → Outcome
up e = record { connects = true; writes = true }

abbrev at_port : ℕ → Endpoint
at_port port = record { address = 0; port = port }

-- A broadcaster connected to port 1256.
abbrev connected : Broadcaster
connected = record { connections = (0, some (at_port 1256)) ∷ []; written = [] }

abbrev builder : BlockBuilder
builder = record {
  committee = four;
  transaction_queue = (1 ∷ []) ∷ (2 ∷ []) ∷ [];
  network = Broadcaster.create;
  built = [];
}

abbrev three : List Transaction
three = (3 ∷ []) ∷ (4 ∷ []) ∷ (5 ∷ []) ∷ []

builder-IsBatched : IsBatched builder
unfolding IsBatched
builder-IsBatched = omega arith

handle_transactions-received_example :
    (received (handle_transactions trees reader.dump up builder three) ≡ received builder ++ three)
    × IsBatched (handle_transactions trees reader.dump up builder three)
handle_transactions-received_example =
    handle_transactions-received trees reader.dump up builder three builder-IsBatched

handle_transactions-unframed_example :
    handle_connection 1 keep [] (
      received_by
        (at_port 1256)
        (handle_transactions trees reader.dump up builder three).network.written)
    ≡ some []
unfolding AreLines
handle_transactions-unframed_example =
    handle_transactions-unframed trees reader.dump (λ j. omega arith) up builder three tt
      (at_port 1256) keep [] 0

abbrev waiting_handler : TxReceiverHandler
waiting_handler = record { committee = four; transaction_queue = three; sent = [] }
