-- ===== src/Tests.antt =====
-- Concrete runs, and each theorem with a hypothesis applied where the hypothesis holds.
pub mod Wire
mod Stubs
mod Login
mod Chain
mod Handshake
pub mod Limits
pub mod Keys
pub mod Sound
mod Issue
mod Disk
mod Events
pub mod Echo
mod Shape
mod Checks
mod Tools
mod Rounds
