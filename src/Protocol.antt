-- ===== src/Protocol.antt =====
-- protocol/uni_communication.c, a reliable packet protocol over a serial line.
pub mod State
pub mod Packet
pub mod Send
pub mod Receive
pub mod Frame
pub mod Reply
pub mod Buffer
pub mod Process
pub mod Safety
pub mod Parse
pub mod Whole
pub mod Deliver
pub mod RoundTrip
pub mod Answer
pub mod Reliable
pub mod Delivery
pub mod Nacked
pub mod Life
pub mod Exchange
pub mod Samples
mod Tests
