-- ===== src/Wire.antt =====
-- include/mf/wire and src/wire: datagrams cut into messages, and messages packed into datagrams.
pub mod Framing
pub mod MoldUdp
pub mod Session
mod Tests
