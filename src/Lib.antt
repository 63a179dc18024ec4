-- ===== src/Lib.antt =====
-- A verification library for routers, a map-matching engine.
--
-- The engine turns a trace of positions into a path on a road network. Each position becomes a layer of
-- candidate roads; a trellis holds the layers, the weights of the nodes and of the edges between
-- neighbouring layers; a solver finds the cheapest path through all layers. The codec reads the road
-- network and its tags, among them the modes of transport that a restriction applies to.
--
-- The files and the code they model:
--   Common            Outcome (Ok, Err, panic), Option, native lists, slices and 32-bit words.
--   Trellis/Types     libs/routers_trellis/src/types.rs, transition.rs, path.rs and the errors.
--   Trellis/Graph     libs/routers_trellis/src/trellis.rs: the trellis and its queries.
--   Trellis/Edit      the same file: the operations that change a trellis or cut one out of it.
--   Trellis/Cost      the same file: `edge_weight` and `path_cost`.
--   Trellis/Shape     the lengths and bounds of the transitions, as a predicate.
--   Trellis/Valid     the invariant of a trellis, and the trellises that can be built.
--   Trellis/Effects   what the operations return where they succeed.
--   Solver/Forward    libs/routers_trellis/src/solver/viterbi.rs: the forward pass.
--   Solver/Viterbi    the same file: boundaries, backtracking and `solve`.
--   Solver/Stages     an abstract view of a resolved trellis: its layers as a list, and the paths
--                     through them with their exact costs.
--   Solver/Relax, Argmin, Flat, Backtrack, View, Positions, Price, Pending
--                     each step of the solver against that view.
--   Solver/Convergence libs/routers_trellis/src/solver/viterbi.rs: `convergence`, with Solver/Narrow, Traces,
--                     Sweep, Living, LivePaths, Ends, Converged and Converges against the paths of
--                     backtracking.
--   Solver/Brute      libs/routers_trellis/src/solver/brute.rs, with Solver/Odometer, Priced and Exhaustive:
--                     the order of the counter, and the search on fuel.
--   Solver/Correct    the contract of `Solve`, and that the Viterbi solver keeps it.
--   Codec/Transport   libs/routers_codec/src/osm/parsers/primitives/transport.rs: the modes, their
--                     hierarchy, the flag sets and the kinds.
--   Codec/Direction, Codec/RoadClass
--                     direction.rs and road_class.rs in the same directory.
--   Trip/Solved, Trip/Certificate
--                     libs/routers_trellis/src/solved.rs, over any solver that keeps the contract.
--   Trip/Store, Trip/Identity
--                     libs/routers_transition/src/candidate/store.rs, entry.rs and ident.rs.
--   Trip/Phase, Trip/State, Trip/Aligned, Trip/Cut
--                     libs/routers_transition/src/matcher/trip.rs and origin.rs: the states of a trip
--                     (Empty, Building, Solved), its operations and their invariant.
--   Trip/Effects      what `Solved::append` returns.
--   Trip/Continuation libs/routers_transition/src/matcher/continuation.rs.
--   Matcher/Error     libs/routers_transition/src/primitives/error.rs.
--   Matcher/Weigh, Matcher/Strategy
--                     libs/routers_transition/src/weigh/mod.rs and all_compute.rs: the weighing of the
--                     pending boundaries of a trellis, over any routing and costing.
--   Matcher/Rows, Fill, Landed, Pending, Weighed
--                     what weighing writes, row by row and boundary by boundary.
--   Matcher/Frontier  `frontier_collapse` of weigh/mod.rs, with Matcher/Live, Alive and Collapse against
--                     the nodes that present edges reach.
--   Matcher/Run, Matcher/Route
--                     libs/routers_transition/src/matcher/entity.rs, with `generate` of
--                     layer/generation/mod.rs: push, extend, solve, collapse and match.
--   Matcher/Sound, Batch, Unanchored, Laid, Fresh, Solves, Again, Driven,
--   Numbered, Whole
--                     the invariant of a trip under those operations, and what each answers.
--   Routing/Cost, Routing/Dijkstra
--                     libs/routers_transition/src/primitives/weight_and_distance.rs and
--                     algorithms/dijkstra.rs beside it, with Routing/Walks, Entries, Relaxed, Trail
--                     and Visits: what its loop keeps, and what `next` answers.
--   Realtime/Partition, Realtime/Fleet, Realtime/Owners
--                     libs/routers_realtime/src/partition.rs, and `owned_partitions` of
--                     libs/routers_realtime/bin/orchestrator.rs.
--   Tests             runs, and the theorems at concrete inputs.
--
-- Conventions. A `u32` is a native natural number; a conversion `as u32` keeps its `% 2 ^ 32`, and the
-- sums of the forward pass wrap as they do in a release build. `usize` is unbounded. An index or a slice
-- out of range is the outcome `panic`. A method on `&mut self` returns the new value; on an error the
-- old value stands, except that `Trip::push_layer` hands back the trip that its error leaves.
-- Loops are structural recursion on the lists they run over. The `loop` of the brute force solver and the
-- loop of the shortest path iterator run on fuel: the product of the widths is enough for the one, and one
-- more than the size of the heap for the other.
--
-- The candidates of a point, how a candidate is reached from another, what that costs, which candidates a
-- strategy selects and the default of a point are parameters of the matcher. It assumes of them that a
-- selection stays within the layer, and that a point has fewer than 2^32 candidates. An operation of the
-- matcher that fails hands back the trip as it is left.
--
-- The binary heap of the shortest path iterator is a parameter: `pop` takes an item of least cost, and says
-- that there is none only of an empty heap. So are the successors of a node and the equality of nodes; the
-- index map is the list of its entries in the order of insertion.
--
-- The sets of flags come from the bitflags crate: a record of its operations and their laws is a
-- parameter of what uses them. The edges and the points of candidates are type parameters, and the
-- equality of points is any test.
--
-- Not modelled: logging and tracing, serialisation, the decoding of OSM files, floating point costs and
-- geometry, the shards and their storage, the event handling of the realtime services, the RPC services, the tiles, the time
-- zones and the viewer.
pub mod Common
pub mod Trellis
pub mod Solver
pub mod Codec
pub mod Trip
pub mod Matcher
pub mod Realtime
pub mod Routing
mod Tests
