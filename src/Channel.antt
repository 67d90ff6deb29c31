-- ===== src/Channel.antt =====
-- The parts under channel/ that take the packets of the peer's playback and speech, and the channel, which
-- hands each packet that arrives to its part.
pub mod Codes
pub mod Audio
pub mod Playing
pub mod Speech
pub mod Recording
pub mod Routing
pub mod Queue
pub mod Queued
pub mod Handed
pub mod Routed
mod Tests
