-- ===== src/Outbox.antt =====
-- SuperServer/LoginExternOutbox.cpp: the queue of what a zone sends to the login server. The queue is
-- Outbox/Queue; its walk in onExternTick is Outbox/Flush, and a tick or another call is Outbox/Serve.
pub mod Queue
pub mod Flush
pub mod Serve
pub mod Bound
pub mod Owed
pub mod Conserved
pub mod Kept
pub mod Served
pub mod Answered
pub mod Attempts
pub mod Quiet
pub mod Clocks
mod Tests
