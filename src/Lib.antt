-- ===== src/Lib.antt =====
-- PathHydra: a store of confirmed nodes, relations and weighted edges, with exact shortest routes over
-- an image of it. The store (crates/pathhydra-store) keeps records in a database, the routing crate
-- (crates/pathhydra-routing) compiles them to an image and searches it, the engine
-- (crates/pathhydra-engine) admits requests and publishes images, and the api, admin, cuda and bench
-- crates stand around it.
--
-- What models what:
-- - Core: the identities, weights and records of crates/pathhydra-core. `Core.Weight` has
--   `BaseWeight::new` and `from_bits` on IEEE-754 bit patterns (`Core.Float32`).
-- - Routing.Request and Routing.Profile: request.rs, error.rs and profile.rs of
--   crates/pathhydra-routing/src, with `pack_relation_ids`.
-- - Routing.Topology: the trait `RoutingTopology` of cpu.rs as a record, with the laws it is used under.
-- - Routing.Float64: the binary64 operations, a record of three functions and the documented facts
--   about them; a distance is a bit pattern.
-- - Routing.Cpu: the search of cpu.rs, from `route_topology_controlled` down. `iterate` is a round of
--   its loop, `visit` and `expand` are the round of a popped entry, `scan` is the loop over the
--   outgoing edges, and `relax` is what an edge does. Cpu.Frontier is the binary heap as the list of
--   its entries in the order of their pops, Cpu.Path is `reconstruct_path`, and Cpu.Route maps the
--   request to dense nodes and classifies the destinations.
-- - Routing.Cpu.Walk is the specification: walks along enabled edges with the distance that the
--   rounded addition accumulates. Routing.Cpu.Invariant, Pending, Exact, Results and Guarantees lead
--   from the loop's invariant to the theorems on a response.
-- - Subgraph: crates/pathhydra-subgraph/src/subgraph.rs, a caller's set of nodes and map of edges, on
--   `Common.Keyed`, the sorted list of a `BTreeMap`'s entries. Subgraph.Keeps has its invariant,
--   Subgraph.Edges, Paths and Unions what the operations do.
-- - Engine.Admission: crates/pathhydra-engine/src/admission.rs. An operation holds the controller's
--   mutex throughout, so an interleaving of clients is a sequence of operations: Admission.Balance
--   has the states that they reach, with the permits that are held, and Admission.Fit says when a
--   reservation is granted.
-- - Engine.Cancellation: crates/pathhydra-engine/src/cancellation.rs, the registry of requests and the
--   store of the flags they share with their searches.
-- - Engine.Lifecycle: crates/pathhydra-engine/src/lifecycle.rs. Lifecycle.Phases has the states that
--   clients reach with the permits they hold, Lifecycle.Slots the counts by kind, Lifecycle.Decisions
--   what is granted in terms of the permits, Lifecycle.Closing what clients can do after the closing,
--   with the shutdown, and Lifecycle.Draining the wait for the drain. The wait is followed along a list
--   of what each wake finds; the list ends where the wait is not over yet.
-- - Engine.Retirement: crates/pathhydra-engine/src/retirement.rs. The loop of `retire` goes along what
--   each of its rounds meets of leases and of the file system, and the list ends where it still waits.
--   A round starts in the state that the round before left: the lock is released while the call sleeps,
--   and what other calls do to the state meanwhile is not represented.
-- - Store.Codec: crates/pathhydra-store/src/codec.rs, keys and records as bytes. A reader is the bytes
--   it has left, and the UTF-8 test of a name is a parameter. Codec.Numbers and Codec.Parts have the
--   pieces of a record; RoundTrip and Candidates write and read, Canonical reads and writes, and
--   KeyOrder compares keys as the database does.
-- - Store.Errors, Store.Batch and Store.Catalog: crates/pathhydra-store/src/error.rs and catalog.rs. A
--   column family under identities is the sorted map of its decoded records, and one under other keys
--   (Store.Family) keeps the encoded keys: the database gives back what was put last under a key, and
--   iterates in the order of the keys. It accepts a write batch whole or refuses it, which is an
--   argument. Catalog.Insert is `insert_candidate_batch`, Catalog.Remove has `remove_edge` and
--   `remove_node`. Catalog.Counts compares the usage counts of relations with what they count:
--   Planned, Stored and Inserted follow a batch, Removed an edge, and Incident and NodeRemoved a node
--   with its edges. Referenced and Recorded have the counts of references that candidates get, and
--   EdgeGone and NodeGone what the removal of an edge or of a node leaves.
--   Catalog.Links has the edges beside the adjacency families that lead to them: Collected is what
--   `remove_node` collects there, Detached that these are the edges of the node, and Removal what is
--   left of the edges and of the adjacencies.
--
-- Vectors that have one entry for each dense node are functions. The cancellation signal is the
-- sequence of its answers. The search has fuel `adjacency_count + 2`: a round takes an entry off the
-- frontier, and an edge is scanned once and pushes at most one. A path has fuel `node_count + 2`,
-- since the cycle test stops it. Routing.Cpu.Fuel has the measures,
-- and Routing.Cpu.Budget counts the edges that are examined.
--
-- Not modelled: allocation failure, locks and their poisoning, the confirmation of candidates and the
-- validation of an opened catalog, elapsed times, the partitioned bundle, the cuda, api, admin and
-- bench crates, and the threads of the engine.
mod Common
pub mod Core
pub mod Routing
pub mod Subgraph
pub mod Engine
pub mod Store
mod Tests
