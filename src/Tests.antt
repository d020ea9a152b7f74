-- ===== src/Tests.antt =====
-- Concrete packets and receivers, and the theorems applied to them.
pub mod Delivering
pub mod Demo
pub mod DemoReceiver
pub mod Discovering
pub mod Instances
pub mod Links
pub mod Lives
pub mod Packets
pub mod Receiving
pub mod Sending
pub mod Threads
pub mod Windows
