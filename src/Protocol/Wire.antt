-- ===== src/Protocol/Wire.antt =====
-- What `Write` puts on the wire and `Read` takes off it (shared/protocol/message.definition.go).
pub mod Frames
pub mod Read
pub mod Safety
pub mod Progress
