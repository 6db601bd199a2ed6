-- ===== src/Opaque.antt =====
-- opaque_adapter.py: the OPAQUE password protocol over P-256.
pub mod Crypto
pub mod Curve
pub mod Oprf
pub mod Envelope
pub mod Wire
pub mod Keys
pub mod Client
pub mod Server
pub mod RoundTrip
pub mod Runs
pub mod Agreement
pub mod Shape
pub mod Loop
