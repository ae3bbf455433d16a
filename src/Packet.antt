-- ===== src/Packet.antt =====
-- packet/: the packets of the protocol, their encoding, and the frames that carry them.
pub mod Types
pub mod Body
pub mod Frame
pub mod Header
pub mod BodyTrip
pub mod RoundTrip
pub mod Hostile
pub mod Stream
pub mod StreamTrip
