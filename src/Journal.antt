-- ===== src/Journal.antt =====
-- src/journal and include/mf/journal: the files that events are kept in.
pub mod Format
pub mod Writer
pub mod Reader
pub mod RoundTrip
mod Tests
