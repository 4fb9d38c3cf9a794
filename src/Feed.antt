-- ===== src/Feed.antt =====
-- The parts together: the events that the parsers make, in the order book engine.
pub mod Reductions
mod Tests
