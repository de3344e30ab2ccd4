-- ===== src/Lib.antt =====
-- The core of kovri, an I2P router in C++, as definitions that run and theorems about them.
--
-- Tunnel (core/tunnel). Tunnel.Gateway is TunnelGateway.cpp: put_i2np_msg is
-- TunnelGatewayBuffer::PutI2NPMsg, create_current and complete_current are
-- CreateCurrentTunnelDataMessage and CompleteCurrentTunnelDataMessage, TunnelGateway with
-- send_buffer, put_tunnel_data_msg and send_tunnel_data_msg is the class of that name.
-- Tunnel.Endpoint is TunnelEndpoint.cpp: Header reads the delivery instructions, Receive is
-- HandleDecryptedTunnelDataMsg, and the parent module has the other handlers. Tunnel.Block has the
-- types of TunnelBase.h and the buffers of I2NPProtocol.h. A message under construction is the list
-- of its payload bytes, a completed one the list of its 1028 bytes. What Crypto++ does (SHA256 and
-- random bytes) is the record Tunnel.Crypto; encryption on the way is left out. Reads and writes
-- past a buffer are undefined behaviour in C++: a step answers none there. Fuel: the follow-on
-- loop of the gateway takes at least one byte in a round, so it gets the length of the message; the
-- call of PutI2NPMsg for the same block finds a new message with room, so it gets 2; the fragment
-- loop of the endpoint reads at least three bytes in a round, so it gets the length of what it
-- reads. Sizes are natural numbers: the invariant of Tunnel.Gateway.Bounds keeps every subtraction
-- of the gateway from going below zero.
--
-- Ssu (core/transport/SSUData.cpp). Ssu.State has the types of SSUData.h and the actions that stand
-- for calls of the session, of the message handler and of the timers. Session is construction,
-- AdjustPacketSize, Start and Stop; Send is Send, SendMsgAck and SendFragmentAck; Header is ToSSU
-- and FromSSU of I2NPProtocol.h; Acks is ProcessSentMessageAck and ProcessAcks; Resend has the
-- handlers of the three timers; Receive is ProcessMessage, ProcessFragments and AttachNextFragment.
-- A packet is its plain payload behind the SSU header, without padding. Fuel: a round of the loop
-- of Send takes at least one byte, so it gets the length of the message. The clock is an argument.
-- Which identifiers the decay timer forgets is modelled, not which of the timers fires for it.
--
-- Streaming (api/Streaming.cpp and Streaming.h). Packet has the array of a packet and what is read
-- from it; bytes behind what is written are read as 0. State is Stream with its constructors: a call
-- of the destination, of a timer or of the user's handler is an action, and SendPackets is one, with
-- the bytes that it gets. Close is Terminate, SendClose and Close; Send is Send, AsyncSend, SendBuffer
-- and SendPacket; Acks is ProcessAck and SendQuickAck; Receive is HandleNextPacket, ProcessPacket and
-- ConcatenatePackets; Timers has HandleResendTimer, HandleAckSendTimer, AsyncReceive and
-- HandleReceiveTimer; Lease is UpdateCurrentRemoteLease; Destination is StreamingDestination. A set of
-- packets is a list in the order of the numbers, the send buffer the bytes that are left and the mark
-- of the end. Identities, with their signatures, and the decompression are parameters. Fuel: a round of
-- SendBuffer takes one of the messages that the window has room for, so their number bounds the rounds.
-- The clock is an argument. Times of a round trip are taken to be below 2 ^ 31, so that m_RTT and m_RTO
-- have no sign. Lifetime has the steps of a stream, Transfer two streams.
--
-- Socks (api/I2PTunnel/SOCKS.cpp). SocksHandler is SOCKSHandler: the parent has its state, answers,
-- EnterState, ValidateSOCKSRequest and Socks5ChooseAuth; Parse has a round of HandleData by the state,
-- handle_byte, the loop, and the handlers of events. The union of addresses is the member that was
-- chosen last, m_addrtype its constructor. Members that the constructor leaves are arguments of
-- new_handler. A write past the array of a name is the outcome fault. What is written to the socket, or
-- asked of the owner, is an action.
--
-- Garlic (core/Garlic.cpp and Garlic.h). The parent module has the data; Session the tags of an
-- outgoing session; Payload is CreateGarlicClove, CreateDeliveryStatusClove and CreateGarlicPayload;
-- Wrap is CreateAESBlock and WrapSingleMessage; Destination is GarlicDestination but for the handlers
-- of a message, which are Receive. I2np has the header of an I2NP message and the delivery status of
-- I2NPProtocol.cpp. A delivery status is wrapped by a session without an owner, so that two levels of
-- wrap_message are enough. Sessions are behind pointers, which both maps of the destination share. AES
-- in CBC mode and ElGamal are the record Ciphers, with their laws in Garlic.RoundTrip.AreInverse. A
-- received buffer is the bytes up to the end of its array, and a step answers none where the code
-- reads past that, or writes past the buffer of a new message. What is passed on to other handlers is
-- an event. A call takes one reading of the clock.
--
-- Tunnel.Pool (core/tunnel/TunnelPool.cpp): the parent has the pool, its tunnels and the choice of one,
-- Tests is TestTunnels and ProcessDeliveryStatus, Peers the choice of the hops. Tunnels are numbers, and
-- what stands behind them a function. A round of the loop that makes new tests takes a tunnel of one of
-- the two lists at least, so their lengths together are its fuel. The network database and the
-- transports are the record Routers.
--
-- Tunnel.Manage (core/tunnel/Tunnel.cpp): manage_pending_tunnels and manage_transit_tunnels are
-- ManagePendingTunnels and ManageTransitTunnels, get_transit_tunnels_expiration_timeout is
-- GetTransitTunnelsExpirationTimeout. The order of a map is that of the list, and the counts of
-- tunnels do not overflow.
--
-- LeaseSet (core/LeaseSet.cpp): create_lease_set is the constructor from a pool, lease_set_from the one
-- from a buffer, update_lease_set is Update, read_from_buffer ReadFromBuffer. Identities, keys and
-- signatures are the record LocalIdentity.
--
-- Base64 (core/util/Base64.cpp). byte_stream_to_base64 and base64_to_byte_stream are
-- ByteStreamToBase64 and Base64ToByteStream, on lists of bytes and of character codes; t64 and it64
-- are the tables. A count that leaves int is a fault, none, in both directions. Base32 is the other
-- half of the file: its rounds write a character each, so that
-- the room of the output is the fuel.
--
-- Profiling (core/Profiling.cpp). RouterProfile and its methods; is_bad is IsBad with the profile
-- after it, save and load are Save and Load on what the sections of a file hold.
--
-- Queue (core/util/Queue.h). The operations of Queue as steps, and the inner loop of MsgQueue::Run
-- with a bound on its rounds.
--
-- Common holds the shared names, lists, maps (std::map as a list in the order of its keys), bytes
-- (util/I2PEndian.h) and facts by evaluation.
--
-- Not modelled: threads and mutexes, logging, sockets, files, and the parts that PROJECT.json
-- lists as such.
pub mod Base32
pub mod Base64
pub mod Common
pub mod Garlic
pub mod I2np
pub mod LeaseSet
pub mod Profiling
pub mod Queue
pub mod Socks
pub mod Ssu
pub mod Streaming
pub mod Tunnel
