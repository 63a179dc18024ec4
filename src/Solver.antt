-- ===== src/Solver.antt =====
-- The solvers of libs/routers_trellis/src/solver.
pub mod Viterbi
pub mod Forward
pub mod Relax
pub mod Stages
pub mod Argmin
pub mod Flat
pub mod Backtrack
pub mod View
pub mod Positions
pub mod Price
pub mod Pending
pub mod Correct
pub mod Brute
pub mod Odometer
pub mod Priced
pub mod Exhaustive
pub mod Convergence
pub mod Narrow
pub mod Traces
pub mod Sweep
pub mod Living
pub mod LivePaths
pub mod Ends
pub mod Converged
pub mod Converges
