-- ===== src/Protocol.antt =====
-- shared/protocol: the wire protocol between the clients and the transporter.
pub mod Constants
pub mod Crc
pub mod Message
pub mod Fields
pub mod Payload
pub mod Wire
pub mod Exchange
