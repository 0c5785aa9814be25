-- ===== src/Lib.antt =====
-- A verification library of DAG-Rider, an atomic broadcast in C++: validators exchange vertices that
-- name vertices of earlier rounds as parents, and each orders the graph of vertices by itself, wave
-- by wave of four rounds.
--
-- How the parts interact. src/consensus/consensus.cpp runs a loop: vertices and blocks come in over
-- channels (src/consensus/communication.hpp), vertices whose parents are held enter the graph
-- (src/consensus/dag.cpp), and when the graph has a quorum in the current round, the node orders a
-- wave if the round is the last of one, goes to the next round and sends a vertex of its own. Vertices
-- and blocks are hashed and written as JSON by src/model; the committee gives keys, addresses and the
-- size of a quorum. src/transaction makes blocks of transactions and src/vertex passes vertices on,
-- both over src/network.
--
-- Where the parts are:
--   Model/Block, Model/Vertex, Model/Reading: src/model/block.cpp, src/model/vertex.cpp; hashes and
--     keys of 32 bytes are the numbers that they write. Model/External and Model/Input are the
--     operations of nlohmann/json and BLAKE3 that the code calls, as parameters.
--   Model/Committee: src/model/committee.cpp; Keys has the sorted keys, Quorums counts quorums.
--   Model/Validator, Model/Numbers: src/model/validator.cpp, and std::stoi and std::to_string as it
--     calls them. `Platform` has ed25519 and the addresses of Boost.Asio, as parameters.
--   Model/BuiltIn, Model/CommitteeJson: the constructor of src/model/committee.cpp with its four key
--     pairs, and the JSON of a committee.
--   Containers: std::map (Ordered) and std::unordered_map (Hashed) as lists of entries.
--   Consensus/Dag: src/consensus/dag.cpp, function by function: insert_vertex is insertVertex,
--     search and scan are the two loops of isLinkedInternal, and so on. Search, Turns and Links treat
--     that search, Insertion and Lookup the graph as a map, SameGraph graphs that hold the same
--     vertices in other orders, Closure the parents of the vertices held.
--   Consensus/State: src/consensus/state.cpp.
--   Consensus/Protocol: src/consensus/consensus.cpp: order_vertices is orderVertices, and so
--     on; in Loop, turn is the body of the loop of run on what was received. The children are named for what they
--     treat: Waves, Leaders, Commit, Delivery, WeakEdges, Proposal, Totality,
--     Outcomes, Distinct and Agreement (two nodes), History, Turned, Honest and Accepted (all turns of a node), BuiltIn
--     (the built-in committee).
--   Consensus/System: nodes that spawn has made, while they live, over a network that delivers what was broadcast in any order, late, more
--     than once or never; Steady has what holds of each node, Consistent what holds of any two,
--     Backed the quorum of parents of each vertex sent, Votes, World and Committed what follows in graphs of
--     such vertices for the leaders of waves, and Safety the waves that two nodes commit.
--   Consensus/Channel: src/consensus/communication.hpp and the first loop of run, as schedules of
--     the steps of two threads.
--   Network/Broadcaster, Network/Receiver: send and handle_connection of src/network; Receiver/Chunks has the
--     latter on bytes that come in pieces, Receiver/Listening has start and run. Network/Coroutines
--     has the calls of send that take turns on one io_context: a coroutine goes on when what it waits
--     for has ended, in the order of a schedule.
--   Node/Client: src/node/client.cpp, however its waits end. Node/Main: what
--     src/node/main.cpp does with the client and the coordinator.
--   Transaction: src/transaction/block_builder.cpp; Transaction/Handlers is
--     src/transaction/coordinator.cpp; Interleaved has calls of handle_transaction that take turns, as
--     src/transaction/main.cpp spawns them; Framing, Peers and BuiltIn have what receivers get of the
--     blocks.
--   Exchange: src/vertex/vertex_message_handler.cpp and src/vertex/vertex_broadcaster.cpp;
--     Exchange/Coordinator: src/vertex/vertex_coordinator.cpp.
--   Tests: samples, and each theorem at an input that meets its conditions.
--
-- Numbers and fuel. Rounds are uint64_t, waves and the round counter uint32_t; wrap-around is written
-- out. The searches of the graph take fuel; `none` is a search that has not ended. The fuel that is
-- enough is counted by turns in Consensus/Dag/Turns, for graphs in which parents are of earlier rounds,
-- and Consensus/Protocol/Totality carries that through every function of the loop. A graph is well
-- formed if its rounds rise, each round has one vertex for an owner, and every vertex stands under its
-- own round and owner with parents of earlier rounds.
--
-- A std::shared_ptr to a vertex is the vertex itself. The raw pointer that getLeadersToCommit takes from
-- one is used after its owner is gone: what a read through it gives is left open, as a function of the
-- round, the vertex that was freed and the one allocated since (the field `memory` of a node), so what
-- is proved of a node holds whatever is read; a crash is not modelled. In the same way the model leaves
-- open what async_write takes from an array that is gone (Node/Client), what a call reads through a
-- reference to its transaction (Transaction/Interleaved), and in what order a map iterates over the four
-- built-in validators (Platform). The turns of a node are given what the first two loops of run took;
-- with the blocking receive of the channels these do not end (Consensus/Channel), and a node is a local
-- of spawn that its thread may outlive: what is proved of turns holds of what run does as far as it gets.
-- Outside Network/Coroutines and Transaction/Interleaved, coroutines run one call after
-- another.
--
-- Not modelled: the threads that the spawn functions start, printing, the parsing of options,
-- src/network/error.cpp, whose texts are used nowhere, and the main.cpp files but for what is
-- named above of src/node's and src/transaction's.
pub mod Consensus
pub mod Containers
pub mod Exchange
pub mod Model
pub mod Network
pub mod Node
pub mod Prelude
pub mod Tests
pub mod Transaction
