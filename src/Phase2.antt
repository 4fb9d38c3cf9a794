-- ===== src/Phase2.antt =====
-- include/mf/phase2 and src/phase2: sequencing, recovery, arbitration and merge.
pub mod Tracker
pub mod Merger
pub mod Recovery
pub mod Sequencer
pub mod Pipeline
pub mod Arbiter
mod Tests
mod ArbiterTests
