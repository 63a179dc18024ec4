-- ===== src/Codec/Transport.antt =====
-- libs/routers_codec/src/osm/parsers/primitives/transport.rs
pub mod Mode
pub mod Modes
pub mod Chain
pub mod Flags
pub mod Restricted
pub mod Kinds
mod Checks
pub mod Laws
pub mod Domains
pub mod Matching
