-- ===== src/Codec.antt =====
-- codec.py: the messages on the wire, their encoders and their decoders.
pub mod Messages
pub mod Reader
pub mod Fields
pub mod Accepts
pub mod Encode
pub mod Decode
pub mod Wire
pub mod Format
pub mod RoundTrip
pub mod Exact
