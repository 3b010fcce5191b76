-- ===== src/Record.antt =====
-- RecordServer/RecordServer.cpp: the cache of users before the database, the queues of loads and saves,
-- and the login tokens that are being verified. Of relations, only the queue of their saves is there; the lists of
-- characters are left out.
pub mod Users
pub mod Tokens
pub mod Loads
pub mod Drained
pub mod Waits
pub mod Saves
pub mod Verified
mod Tests
