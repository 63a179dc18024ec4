-- ===== src/Codec.antt =====
-- The tag parsers of libs/routers_codec.
pub mod Transport
pub mod Direction
pub mod RoadClass
