-- ===== src/Routing.antt =====
-- The routing primitives of libs/routers_transition.
pub mod Cost
pub mod Dijkstra
pub mod Walks
pub mod Entries
pub mod Relaxed
pub mod Trail
pub mod Visits
