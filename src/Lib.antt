-- ===== src/Lib.antt =====
-- adb-remote: sharing an ADB device through a relay server, the transporter. The owner of a device
-- creates a room, a guest joins it, and the transporter forwards ADB messages between the two.
--
-- Prelude: Boolean tests, lists over native numbers, little-endian words, texts, and Go's outcomes:
-- a value, an error or a run-time panic, in a state monad.
-- Protocol (shared/protocol): Constants is constants.go; Crc is the standard library's CRC-32;
-- Message is message.definition.go, utils.go and validation.go, a message being its four buffers and
-- `read` and `write` working on byte streams; Fields and Payload are payload.definition.go. A message
-- is used again by the pool, so its payload buffer keeps old bytes behind the declared length.
-- Pool (shared/utils/objectPool.go): containers in a store under references; each method holds the
-- mutex for its whole body and is one step.
-- Transporter.Rooms (transporter/manager/roomManager): the table of rooms, every handler, and the
-- dispatch loop as `step` and `run`. Connections are numbers; which writes fail is a parameter.
-- Transporter.Connection (transporter/manager/connectionManager/clientConnection.go): one connection
-- with the shared pool, its unread input and what it has been sent: the `Send` methods,
-- `readNextMessage`, in Handshake `performHandshake`, and in Run its goroutine.
-- Client.AdbMessage (client/adb/adbMessage.go): ADB's own messages, read from a connection, or decoded
-- from the bytes that another message carries.
-- Client.Multiplexer (client/relay/owner.go): the streams that a guest opens on the owner's device. A
-- stream's pump is a goroutine in the code, and here a state of the stream whose steps are events; RunOwner is
-- the loop over the client's messages.
-- Client.Transport (client/transportLayer/client.go): the requests of a client, its byte
-- counters, and in Reader its reader and the life of its connection.
-- Transporter.ConnectionManager (transporter/manager/connectionManager/connectionManager.go): the list of
-- the connections and the report of each one's end; Transporter.RandomIds (transporter/utils/randomUtils.go).
-- Client.NetConn: a connection of package net. Client.SmartSocket (client/adb/smartSocket.go): the requests
-- of the local adb server; Client.AdbProxy (client/adb/proxy.go): what it is shown as the shared device.
-- Client.Controller (client/controller/baseController.go, guestController.go): the handshake and a guest's
-- session; Client.OwnerController (client/controller/ownerController.go): the owner's. Both run over
-- Client.Transport, and report events to the user interfaces.
-- Client.Relay (client/relay/relay.go): the two pumps of a relayed connection, and Run, in which their
-- rounds interleave.
-- Client.Share and Client.Connect (client/tui/share.go, connect.go): the models of the two user interfaces
-- with their `Update` and, over lipgloss's styles, their `View`, laid out by Client.Screen;
-- Client.TransferStats (client/tui/transferStats.go): the footer's numbers.
-- Sharing: the room manager over its connections, and with the two clients at their ends.
-- Client.PcapWriter (client/pcapwriter/pcapwriter.go): captured messages as packets.
--
-- Bounds: bytes and words are natural numbers with the wrap-around of uint32 written out; strings are
-- lists of bytes, shorter than 2 GiB where a theorem says so. The loop that adds
-- the carries of a checksum has two rounds of fuel, which its 32-bit sum cannot use up.
-- The parser of the adb server's answer has a round of fuel for each byte, and the goroutine of a connection
-- a round for each header that its input can hold, and one more. The same holds for a client's reader.
-- Whether an unbuffered channel on which these two send has a receiver is a parameter.
-- Not modelled: the styles themselves and the start of the user interfaces (lipgloss and bubbletea), the
-- identity's keys and TLS (files and libraries of cryptography), configuration, commands and logging (flags,
-- wiring and text).
pub mod Prelude
pub mod Protocol
pub mod Pool
pub mod Transporter
pub mod Client
pub mod Sharing
mod Tests
