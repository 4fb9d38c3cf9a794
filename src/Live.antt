-- ===== src/Live.antt =====
-- The live feed of Bitfinex: src/live/bitfinex and include/mf/live/bitfinex.
pub mod Lowering
pub mod Resync
mod Tests
