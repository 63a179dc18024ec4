-- ===== src/Matcher.antt =====
-- The matcher of libs/routers_transition: weighing, solving and matching over trips.
pub mod Error
pub mod Weigh
pub mod Rows
pub mod Fill
pub mod Landed
pub mod Pending
pub mod Weighed
pub mod Frontier
pub mod Live
pub mod Alive
pub mod Collapse
pub mod Run
pub mod Route
pub mod Sound
pub mod Batch
pub mod Unanchored
pub mod Laid
pub mod Fresh
pub mod Solves
pub mod Again
pub mod Driven
pub mod Numbered
pub mod Whole
pub mod Strategy
