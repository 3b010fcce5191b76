-- ===== src/Net.antt =====
-- The network layer, sdk/net: the ring buffers of a connection and the framing of messages on them.
pub mod Ring
pub mod Connection
mod Tests
