-- ===== src/Lib.antt =====
-- A model of the TCP implementation of libsponge and the theorems that hold of it.
--
-- The parts and how they interact. A connection (libsponge/tcp_connection.cc) joins a receiver
-- (tcp_receiver.cc) and a sender (tcp_sender.cc). A segment from the network goes to the sender
-- for its acknowledgment and window, and to the receiver for its payload; the receiver turns its
-- 32-bit sequence number into a stream index (wrapping_integers.cc) and pushes the payload into
-- the reassembler (stream_reassembler.cc), which writes what is in order to a byte stream
-- (byte_stream.cc). The sender reads the outgoing byte stream, cuts it into segments, keeps
-- those in flight and sends the oldest one again when its timer runs out. The connection adds
-- the receiver's acknowledgment and window to what the sender has queued.
--
-- Below the connection, an adapter (tcp_helpers/fd_adapter.cc, tcp_over_ip.cc, tuntap_adapter.cc)
-- sets a segment's ports, and writes it with a checksum (tcp_segment.cc, util/util.cc) into an IPv4
-- datagram (ipv4_datagram.cc), which goes to a TUN device or to a network interface
-- (network_interface.cc). That one sends it in an Ethernet frame (ethernet_frame.cc) to an address
-- that it learns by ARP (arp_message.cc). What is read goes the other way, by the parser
-- (util/parser.cc), in buffers (util/buffer.cc). The router (router.cc) picks the route of a
-- datagram. A summary (tcp_state.cc) names the state of a connection.
--
-- Around a connection, a sponge socket (tcp_helpers/tcp_sponge_socket.cc) joins it to its owner, who
-- reads and writes a stream socket, and to an adapter: an event loop (util/eventloop.cc) calls one of
-- four rules when a descriptor (util/file_descriptor.cc) is ready, and the time that has passed goes to
-- the connection. apps/bidirectional_stream_copy.cc runs an event loop of its own between the standard
-- input and output and a socket, and apps/lab7.cc another around a router.
--
-- The files. Wrapping models libsponge/wrapping_integers.hh and .cc; ByteStream models
-- libsponge/byte_stream.hh and .cc; Reassembler models libsponge/stream_reassembler.hh and .cc;
-- Segment models libsponge/tcp_helpers/tcp_header.hh and tcp_segment.hh, and Segment/Wire
-- tcp_header.cc and tcp_segment.cc; Receiver
-- models libsponge/tcp_receiver.hh and .cc; Sender models libsponge/tcp_sender.hh and .cc with
-- the class Timer; Connection models libsponge/tcp_connection.hh and .cc with TCPConfig; Router
-- models the routing table and the choice of a route of libsponge/router.hh and .cc, and
-- Router/Network its interfaces and their queues. Buffer, Parser
-- with Parser/Unparser, and Checksum model libsponge/util/buffer, parser and the class
-- InternetChecksum of util. Ethernet, Arp and Ipv4 model the headers, messages, frames and datagrams
-- of libsponge/tcp_helpers/ethernet_header, ethernet_frame, arp_message, ipv4_header and
-- ipv4_datagram. NetworkInterface models libsponge/network_interface.hh and .cc; TcpState models
-- libsponge/tcp_helpers/tcp_state.hh and .cc; Adapter, with Adapter/Tap, models fd_adapter,
-- tcp_over_ip, lossy_fd_adapter and tuntap_adapter there. Descriptor models
-- libsponge/util/file_descriptor.hh and .cc with shutdown of socket.cc, EventLoop util/eventloop.hh and
-- .cc, SpongeSocket the socket and the rules of libsponge/tcp_helpers/tcp_sponge_socket.hh and .cc, and
-- SpongeSocket/Session its loop, connect, listen_and_accept and _tcp_main; StreamCopy models
-- apps/bidirectional_stream_copy.cc. SpongeSocket/Devices joins the adapters to their sockets and
-- devices, Sockets models the datagram sockets of util/socket.hh and .cc, and Lab7 the router and the
-- network thread of apps/lab7.cc; NetworkSimulator models the hosts of apps/network_simulator.cc and the
-- exchange of frames there. The other modules below each of these hold
-- its proofs, named for what they prove. Prelude holds Boolean tests,
-- lists over the native numbers and machine words; Tests holds the theorems at concrete inputs.
--
-- The correspondence. A class is a record with the fields of the class, less those that nothing
-- reads; a method is a function from the state to the new state, beside its result if it has
-- one, named as the method is in the source (segment_received is TCPReceiver::segment_received
-- in Receiver and TCPConnection::segment_received in Connection). A `none` where the method
-- returns otherwise is an exception of std::string::substr, of an empty optional, or front() of
-- an empty queue. References to an owned stream become an update of the owner. A queue or
-- std::list is a list with its front first. push_substring is the composition of its stages:
-- merge_loop, trim_front, trim_back and deliver. Where a class has its header's operations under the
-- same names, the header's are parse_header and serialize_header. A parser is a state monad over the
-- bytes that are left and the error; numbers go on the wire with the high byte first, and a `|` of
-- parts that do not overlap is a sum. What a device or a socket reads is an argument, and what is
-- written to it is a result. In Descriptor, Sockets, EventLoop, SpongeSocket, StreamCopy and Lab7 the system calls and
-- poll are parameters over a state of the world, and `none` is an exception; what is documented of them
-- is a record of laws that a theorem takes (IsStream and IsBlocking in Descriptor/Documented, IsRecord in
-- StreamCopy/Steps, IsPoll in StreamCopy/Copied, IsDatagram in SpongeSocket/Devices/Sending, Apart in
-- SpongeSocket/Session/Inbound). A rule of an event loop is a record of functions of
-- the state that its callbacks change.
--
-- Bounds and fuel. Numbers are natural numbers with the wrap of the source's types written out:
-- add64 and sub64 for uint64_t and size_t, sub32 for uint32_t, and the window of a header is cut
-- to 16 bits. A length in sequence space is a plain sum, because a string fits in memory. The
-- folding of a checksum has two rounds, which leave at most 16 bits of 32. The
-- recursion of fill_window is a loop of at most 2 ^ 16 rounds: every segment takes at least one
-- number of a window of at most 2 ^ 16 - 1. The loop of a descriptor's write has one round more than
-- there are bytes, of which each takes at least one. The loops of a sponge socket, of the stream copy and
-- of the network thread run for as long as the peers make them, so their rounds are an argument. An iterator that steps back over begin() is taken as
-- in libstdc++. The random initial sequence number is an argument of the constructor. A prefix
-- length of the router is at most 32; addresses are a parameter of the router, as is the address
-- that a number stands for.
--
-- Reads through an end iterator, which are undefined, are taken as reads of some value: what a
-- network interface reads as a time past the end of its requests is the argument past_end. An
-- `Address`, of IPv4, is its number and its port; what becomes of a number that is written as text
-- and read again, by inet_ntoa and getaddrinfo, is the argument through_text.
--
-- Not modelled: what only wraps system calls (sockets, tun devices, set_blocking, name resolution),
-- threads and destructors of descriptors and sponge sockets, the other applications, messages on cerr,
-- printing of headers and states, the conversion of buffers to iovecs, hex dumps and the random generator.
pub mod Prelude
pub mod Wrapping
pub mod ByteStream
pub mod Reassembler
pub mod Segment
pub mod Receiver
pub mod Sender
pub mod Connection
pub mod Router
pub mod Buffer
pub mod Parser
pub mod Checksum
pub mod Ethernet
pub mod Arp
pub mod Ipv4
pub mod NetworkInterface
pub mod TcpState
pub mod Adapter
pub mod Descriptor
pub mod Sockets
pub mod EventLoop
pub mod SpongeSocket
pub mod StreamCopy
pub mod Lab7
pub mod NetworkSimulator
pub mod Tests
