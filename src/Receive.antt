-- ===== src/Receive.antt =====
-- The receiver: src/receive.rs.
pub mod Creation
pub mod Delivery
pub mod Discovery
pub mod Growing
pub mod Handing
pub mod Handlers
pub mod Lifetime
pub mod Listening
pub mod Merge
pub mod Network
pub mod Ordering
pub mod Receiver
pub mod Recv
pub mod Sequence
pub mod Waiting
pub mod Windows
