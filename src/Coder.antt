-- ===== src/Coder.antt =====
-- coder/: the binary encoder and decoder behind every packet and every replicated operation.
pub mod Varint
pub mod Encoder
pub mod Decoder
pub mod Bounds
pub mod RoundTrip
pub mod Collections
pub mod Progress
pub mod Laws
