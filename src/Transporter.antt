-- ===== src/Transporter.antt =====
-- The transporter: the relay server that brokers rooms.
pub mod Connection
pub mod Rooms
pub mod ConnectionManager
pub mod RandomIds
