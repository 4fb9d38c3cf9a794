-- ===== src/Proto.antt =====
-- include/mf/proto, src/proto and src/parsers: the venues' messages decoded into events.
pub mod Bytes
pub mod Itch
pub mod Pitch
pub mod Deep
pub mod Mdp3
mod Tests
