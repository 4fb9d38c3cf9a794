-- ===== src/Phase3.antt =====
-- include/mf/phase3 and src/phase3: what is kept of the merged stream, the order books and the best bid
-- and offer.
pub mod Types
pub mod Nbbo
pub mod Levels
pub mod OrderTable
pub mod Engine
pub mod Reconciler
mod Tests
mod BookTests
mod TableTests
