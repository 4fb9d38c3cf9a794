-- ===== src/Core.antt =====
-- include/mf/core and src/core: the types that every later stage shares.
pub mod Types
pub mod VenueArray
pub mod Crc
pub mod SpscRing
mod RingTests
