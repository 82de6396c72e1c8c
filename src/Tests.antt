-- ===== src/Tests.antt =====
-- The theorems at concrete inputs.
mod Protocol
mod Connection
mod AdbMessage
mod Multiplexer
mod Transport
mod PcapWriter
mod Pool
mod Rooms
mod Relay
mod Sharing
mod Controller
mod Share
mod SmartSocket
mod ConnectionManager
