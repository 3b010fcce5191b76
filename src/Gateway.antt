-- ===== src/Gateway.antt =====
-- The gateway's part in the login of a client: GatewayServer.cpp, GatewayUser.h, GatewayUserManager.cpp,
-- ClientMsgValidator.h, ClientMsgRouter.h and sdk/util/ConnRateLimiter.h. A session is Gateway/User, the
-- messages and their parser Gateway/Messages, the test of a message Gateway/Validator, the rate limit
-- Gateway/Limiter, the handlers Gateway/Login and Gateway/Replies, and the server Gateway/Server.
pub mod User
pub mod Messages
pub mod Validator
pub mod Limiter
pub mod Login
pub mod Replies
pub mod Pool
pub mod Server
pub mod Flow
pub mod Answers
pub mod Followed
pub mod Sweeps
pub mod Histories
pub mod World
pub mod Rates
mod Tests
