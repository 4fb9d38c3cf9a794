-- ===== src/Phase4.antt =====
-- The matching simulation: src/phase4/sim_matching_engine.cpp and its header.
pub mod Matching
mod Tests
