-- ===== src/Packet.antt =====
-- src/packet.rs: parsing and packing of sACN packets, one module for each layer.
pub mod Constants
pub mod Buffer
pub mod Universe
pub mod Pdu
pub mod Dmp
pub mod Name
pub mod Sync
pub mod DataFraming
pub mod DiscoveryLayer
pub mod DiscoveryFraming
pub mod Root
pub mod Acn
