-- ===== src/Lib.antt =====
-- The verification library of p2p-container-distribution: a cluster of peers that stores blobs as
-- content-addressed chunks, places the chunks on a consistent hash ring, replicates them, finds
-- dead peers by heartbeats and repairs what they held.
--
-- An upload (internal/api) is split into chunks (pkg/chunk); each is placed by the ring
-- (internal/hashring), stored if this node is a target (internal/storage), and enqueued; a worker
-- of the replication engine (internal/replication) pushes it to the other targets. A peer that the
-- membership (internal/cluster) finds dead is removed from the ring, and the recovery manager
-- (internal/recovery) enqueues the local chunks again. cmd/node sets a node up.
--
-- Files:
--   Ring, Ring/*: internal/hashring/hashring.go. A ring is the record of its three fields;
--     AddNode, RemoveNode, Nodes, Get, GetN are add_node, remove_node, node_ids, get_owner,
--     get_n, their loops add_points, remove_points, collect, and sort.Search is search_first.
--     SHA-1 is a parameter.
--   Chunk, Chunk/*: pkg/chunk/chunk.go. Split, ID, Verify, Reassemble are split, chunk_id,
--     verify, reassemble. SHA-256 is a parameter; a reader is the bytes that it has left and the
--     error after them; a writer is a function that says what it takes.
--   Storage: the interface Backend and Copy of internal/storage/storage.go; Storage/Memory and
--     Storage/LocalFs: its two stores, the second over a file system that is a parameter.
--   Storage/S3, Storage/S3/*: internal/storage/s3.go. Put, Get, Has, Delete, List are put, get,
--     has, delete, list over a state of the outside world, which the parameter Web describes;
--     Sign is the signature (sign, canonicalizeHeaders, deriveSigningKey), Listing is
--     parseListKeys. Paths, Answers and Held relate the calls to a bucket that does what S3
--     documents of requests for objects, Verify a signed request to the check of a server (Server), Keys the keys of a listing to
--     ids, Order the signed headers to the order of Go's header map. Url: the escaping of keys.
--   Cluster, Cluster/*: internal/cluster/membership.go. pingPeer from its answer on is
--     ping_peer, with the change of state in judge and the callbacks in notify; a history of
--     calls is run. Start and Stop are beat_loop (Beats), a round with its probes in any order is
--     ping_all over that order (Rounds); Marks is about MarkAliveManually.
--   Replication, Replication/*: internal/replication/replication.go. The channel is a list of at
--     most 1024 jobs; Enqueue, the workers' receive and Stop are enqueue, receive, stop;
--     replicate and pushWithRetry are replicate and push_with_retry over the answers of the
--     network. Pool, Pool/*: Start, the loop of each worker (turn) and Stop, over schedules; Cancel:
--     pushes whose context is done on the way.
--   Recovery, Recovery/Repair: internal/recovery/recovery.go.
--   Api, Api/*: internal/api/server.go. A handler is a function of the state that it changes and
--     of what the request, the peers and the cold store gave; Api/Routes says which handler gets
--     it.
--   Exchange, Exchange/*: pushes and reads between the nodes of a cluster: pushWithRetry and
--     replicate together with the handlers handlePutChunk and handleGetChunk on the other side.
--     What becomes of each request (Fate) is an input: answered, cut off, lost, or handled with
--     its answer lost.
--   Node, Node/Setup, Node/Settings: cmd/node/main.go, the set-up of a node and its settings.
--     Node/Run: its probes and callbacks as steps, with the callbacks that are started and have
--     not run yet as part of the state; Node/Following, Node/Agreement: its ring, and those of
--     two nodes. Node/Lifetime: the program from engine.Start to the end of its shutdown, a stage
--     for each statement of main, beside which the server may fail and log.Fatalf end it.
--   Rebalance, Rebalance/*: benchmarks/rebalance/main.go. naiveOwner and runScenario are
--     naive_owner and run_scenario, where `none` is the panic of a remainder by zero.
--   GoMap, Errors, Text: Go's maps, errors and the string functions that the program calls.
--   Prelude, Prelude/*: shared lists, tests, sorting. Examples, Examples/*: the theorems at
--     concrete inputs.
--
-- Bounds and fuel: split runs on one more round than the reader has bytes, and a round reads a
-- byte or ends the loop, so `none` does not occur (Chunk/Split). The search on the ring runs on
-- one more round than there are points, and each halves what is left (Ring/Search). The loop of
-- parseListKeys runs on one more round than the body has bytes, and each round takes off two tags
-- (Storage/S3/Keys). Lengths, counters and times are unbounded numbers; the backoff of a push is
-- at most 200 ms times 2^4, far from the bound of a time.Duration. Hashes are whatever the
-- parameters give. Times are nanoseconds of a clock that does not go back.
--
-- Left out: the program benchmarks/availability and the percentages of benchmarks/rebalance,
-- logging, JSON, HTTP headers, the parsing of flags, and the interleaving inside a method that a mutex guards. A method is one step; steps
-- of different goroutines come in any order, but the callbacks about one node (Node/Run).
-- A send on a full or a closed channel is a result of enqueue, and a panic or a wait in the pool
-- and in Node/Lifetime; the handlers of Api take each send for done.
pub mod Prelude
pub mod GoMap
pub mod Ring
pub mod Errors
pub mod Chunk
pub mod Text
pub mod Url
pub mod Storage
pub mod Cluster
pub mod Replication
pub mod Recovery
pub mod Api
pub mod Exchange
pub mod Node
pub mod Rebalance
pub mod Examples
