-- ===== src/Super.antt =====
-- SuperServer/SuperServer.cpp: the routing table of a zone's servers, the users who are online and the
-- logins that are under way.
pub mod State
pub mod Messages
pub mod Logins
pub mod Entry
pub mod Routes
pub mod Serve
pub mod Cases
pub mod Sound
pub mod Owed
pub mod Answered
pub mod Phases
pub mod Ended
pub mod Steps
pub mod Path
pub mod Kicked
pub mod Late
mod Tests
