-- ===== src/Protocol.antt =====
-- The messages on the socket: src/protocol and include/shmipc/protocol.
pub mod Event
pub mod Metadata
mod Tests
