-- ===== src/Trip.antt =====
-- A trip: the observations of a match, their candidates and the trellis.
pub mod Solved
pub mod Store
pub mod Phase
pub mod State
mod Effects
pub mod Aligned
pub mod Cut
pub mod Certificate
pub mod Identity
pub mod Continuation
