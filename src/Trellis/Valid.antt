-- ===== src/Trellis/Valid.antt =====
-- The invariant of a trellis, and that each operation of Trellis/Edit keeps it and does not panic.
mod Invariant
pub mod Slots
mod Keeps
mod Windows
pub mod Reachable
pub mod Written
pub use Invariant.*
pub use Keeps.*
pub use Windows.*
