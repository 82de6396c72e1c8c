-- ===== src/Client.antt =====
-- The client, which shares a device or uses a shared one.
pub mod NetConn
pub mod AdbMessage
pub mod Multiplexer
pub mod Transport
pub mod PcapWriter
pub mod SmartSocket
pub mod Controller
pub mod OwnerEvent
pub mod OwnerController
pub mod Share
pub mod Connect
pub mod TransferStats
pub mod AdbProxy
pub mod Relay
pub mod Screen
