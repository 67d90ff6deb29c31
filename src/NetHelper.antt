-- ===== src/NetHelper.antt =====
-- channel/uni_network_helper_server.c and channel/uni_network_helper_client.c: a device without a
-- network uses the sockets of its peer, one message for each call and one for each answer.
pub mod Codes
pub mod Messages
pub mod System
pub mod Server
pub mod Client
pub mod Calls
pub mod Responses
pub mod Owner
pub mod Ensures
pub mod Exchange
pub mod Request
pub mod Local
pub mod Remote
pub mod Sessions
pub mod Opening
pub mod Sockets
pub mod Reading
pub mod Closing
pub mod Kept
pub mod Table
pub mod Limits
pub mod Reuse
mod Tests
pub mod Answers
