-- ===== src/Lib.antt =====
-- A model of libremo, an RPC library for C++. Paths are from the repository's root.
--
-- Layers of the program: src/l0_system (types, errors, sockets, workers), src/l1_transport (buffers,
-- packets, the binary format, channels), src/l3_rpc (functions, endpoints), src/utils.
--
-- Files and the code that they model:
--   Prelude     shared library names, Boolean tests and list lemmas
--   Error       src/l0_system/error.h (ErrorCode, REMO_THROW, REMO_THROW_IF), src/utils/contracts.h
--               (REMO_ASSERT); `Result` is what a call comes to: a value, an exception, a fault (a
--               failed assertion or an access outside an object) or the end of the fuel
--   Endianness  src/l0_system/endianness.h: numbers in memory on both kinds of hosts
--   Types       src/l0_system/types.h and types.cpp: TypeId (Types/Codes) and TypedValue
--   Buffer      src/l1_transport/buffer.h and buffer.cpp: a window into an array, which grows to the
--               right (RBuffer) or to the left (LBuffer)
--   Packet      src/l1_transport/packet.h and packet.cpp: one array with both windows in it
--   Writer      src/l1_transport/writer.h and writer.cpp: Writer and BinaryWriter; Writer/Encoding
--               and Writer/Results describe the bytes without a buffer, Writer/Room says what becomes
--               of the buffer, Writer/WireSize counts the bytes of a scalar
--   Reader      src/l1_transport/reader.h and reader.cpp: Reader and BinaryReader; Reader/Decoding
--               and Reader/Packets read what an encoding wrote, Reader/Safety and Reader/Hostile are
--               about arbitrary bytes
--   Dump        the text of a packet for the log: to_string and the format functions of
--               src/l1_transport/reader.cpp; Dump/Packets is about what a writer made, Dump/Ending
--               about arbitrary bytes; how a float or double is printed is an argument
--   Codec       both over the payload of one packet
--   Rpc/Item    src/l3_rpc/item.h, item.cpp, function.h, function.cpp and dynamic_call.h: names, and
--               functions that are called with typed values; the bound C++ function is a field
--   Rpc/Registry src/l3_rpc/local_endpoint.h, local_endpoint.cpp and local_endpoint.tpp.h: items in a
--               heap, found by their names
--   Rpc/Pool    src/utils/recycling.h: objects that are taken from a pool and given back
--   Rpc/Remote  src/l3_rpc/remote_endpoint.h, remote_endpoint.cpp and remote_endpoint.tpp.h: a call
--               is written to a packet, handled through the loopback, and its result read
--   Rpc/Endpoint src/l3_rpc/local_endpoint.h and local_endpoint.cpp: connect, the list of remote
--               endpoints, and the destructor
--   Socket      src/l0_system/socket.h and socket.cpp: what send, recv and wait_send_ready make of the
--               system calls, whose returns are arguments
--   Channel     src/l1_transport/channel.h and channel.cpp: the states of a channel and what its
--               observers are told; Channel/States says which changes there are
--   TcpChannel  src/l1_transport/tcp/tcp-channel.h and tcp-channel.cpp, and Transport::take_packet of
--               src/l1_transport/transport.cpp: framing, sending (TcpChannel/Send) and receiving;
--               TcpChannel/Frames describes the stream without packets, TcpChannel/Rx, Receive and
--               Chunk follow one call of receive_chunk, Pieces and Delivery many of them
--   SocketSet   SocketSet of src/l0_system/socket.h and socket.cpp: the sockets that a thread polls;
--               what poll() reports and what the handlers do to the set are arguments
--   Descriptor  Socket of src/l0_system/socket.h and socket.cpp as the owner of a descriptor: opening,
--               closing, accepting and moving
--   SocketSetup naming, connecting and listening, and the options of a socket, in src/l0_system/socket.h
--               and socket.cpp
--   SockAddr    SockAddr of src/l0_system/socket.h and socket.cpp: how the text of an address is split
--               and printed; what getaddrinfo() and getnameinfo() return is an argument
--   Transport   src/l1_transport/transport.h and transport.cpp, tcp/tcp-transport.h and
--               tcp-transport.cpp: the channels of a transport and the thread that listens on them;
--               Transport/Setup is the constructor of the thread
--   Worker      src/l0_system/worker.h and worker.cpp: a thread and its states
--   Async       src/utils/async.cpp: the list of futures that async keeps; which ones are complete is an
--               argument
--   Active      src/utils/active.h and active.cpp: the queue of an object's deferred calls
--   Timer       src/utils/timer.h and timer.cpp: timers and the thread that fires them; Timer/Choice is
--               about the search for the next timer while others reset timers
--   Url         src/l1_transport/url.h and url.cpp
--   Linked      src/utils/list.h and list.cpp: a doubly linked list whose links are fields of its items;
--               Linked/Chain says what sequence a list stands for, Linked/Middle and Remove are about
--               items that leave it
--   Colors      src/utils/colors.h and colors.cpp: escape sequences around a text; Colors/Visible says
--               what a terminal shows of it
--   Logger      src/utils/logger.h and logger.cpp: the lines of the log and the numbers of threads;
--               a level is any int, and Logger/Levels says which are written and under which names
--   Examples    concrete inputs
--
-- A remote endpoint writes a call with Writer into a packet from its pool; the receiving side reads it
-- with Reader, calls the function that the registry has under the name, and writes the result.
-- A channel sends a packet as the size of its payload and the payload, and takes packets out of the
-- bytes that its socket receives.
--
-- How state is modelled: a buffer is a window (start, size, capacity) into an array that is passed
-- on explicitly; a writer or reader carries the array, the window and its own fields. A scalar is its
-- object representation, lowest address first, and the host is little-endian, so that LITTLE_ENDIAN_FOR
-- counts upwards. A pointer argument is the bytes that it leads to. Addresses are indices of the array.
-- Sizes are natural numbers, reduced modulo 2 ^ 64 where the source adds values of type size_t. A
-- smart pointer to a packet is the packet, and its destructor a step that gives the packet back.
--
-- Fuel: the one loop of the reader without a bound of its own is `read_cstr`, which runs until a NUL.
-- It gets one round more than the window has bytes, and since each round moves forward or throws, it
-- never runs out.
-- `handle_packet` of a remote endpoint calls itself through the loopback, and gets a depth: a call
-- needs two, one for the call and one for its result.
-- `send_loop` gets a list of turns of the operating system: what send() and poll() do in each round. A
-- list by which the last byte is taken is enough. `protos` of Url gets one round more than there are
-- characters in front of the delimiter, and moves forward in each.
--
-- Threads: the calls of several threads are a sequence of events, each of them atomic as its lock makes
-- it. A timer thread is given, for every wait on its condition variable, what other threads call
-- meanwhile, and which timers they reset in the rest of the round, since reset takes the lock of the
-- timer only; a list of waits that ends too early leaves it waiting (`timeout`). A restart of a timer
-- is two steps. The thread of a transport is given what recv() makes of its control socket in each
-- round, with the datagrams that are lost, the channels that turn out to be disconnected while it
-- shuts down, and those whose sockets fail to shut down; send() is an argument of a command.
--
-- Not modelled: the calls of the logger in the other parts, the texts of exceptions, settings, the
-- writer and the reader on a big-endian host, the allocation of memory, and the state that an
-- exception in close_channels or handle_cmd leaves behind.
pub mod Active
pub mod Async
pub mod Buffer
pub mod Channel
pub mod Codec
pub mod Colors
pub mod Descriptor
pub mod Dump
pub mod Endianness
pub mod Error
pub mod Examples
pub mod Linked
pub mod Logger
pub mod Packet
pub mod Prelude
pub mod Reader
pub mod Rpc
pub mod SockAddr
pub mod Socket
pub mod SocketSet
pub mod SocketSetup
pub mod TcpChannel
pub mod Timer
pub mod Transport
pub mod Types
pub mod Url
pub mod Worker
pub mod Writer
