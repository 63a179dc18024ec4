-- ===== src/Trellis.antt =====
-- The layered transition graph of libs/routers_trellis.
pub mod Types
pub mod Graph
pub mod Edit
pub mod Shape
pub mod Valid
pub mod Cost
pub mod Effects
