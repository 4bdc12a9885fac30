-- ===== src/TcpChannel.antt =====
-- src/l1_transport/tcp/tcp-channel.h and tcp-channel.cpp: packets over a stream of bytes.
pub mod Frames
pub mod Rx
pub mod Receive
pub mod Chunk
pub mod Send
pub mod Pieces
pub mod Delivery
pub mod Shutdown
use libremo.Prelude.{
  ℕ, ◌+◌, ◌-◌, ◌/◌, ◌%◌, ◌^◌, Bool, true, not, List, [], ◌∷◌, ◌++◌, ◌==◌, leb, ltb, if◌then◌else◌,
  length, take, drop, Option, none, some,
}
use libremo.Error.{
  Result, ok, fault, timeout, ◌>>=◌, remo_assert, throw_if, in_destructor, err_out_of_packets,
}
use libremo.Buffer.{grow, set_size}
use libremo.Packet.{
  Packet, buffer_size, set_header_capacity, drop_header, get_size, get_data, packet_bytes,
}
use libremo.Channel.{
  Channel, opened, closing, new_channel, enter_state, handle_closed, is_closed, notify_receive,
  determine_packet_size, packet_incomplete,
}
use libremo.Socket.{
  IoResult, success, would_block, peer_shutdown, SendRet, RecvRet, send, recv, wait_send_ready,
}
use libremo.Rpc.Pool.{Pool, take_first}
use libremo.Rpc.Remote.{Owned, give_back}

-- The channel, the packet that is being received, and the pool of the transport.
pub record TcpChannel : Type 0 where
  pub base : Channel
  pub rx_packet : Option Owned
  pub pool : Pool Packet

-- TcpChannel(a_transport, a_socket, a_incoming)
unfoldable pub new_tcp_channel : Bool → Pool Packet → TcpChannel
unfolding enter_state
new_tcp_channel incoming pool = record {
  base = if incoming then enter_state opened new_channel else new_channel;
  rx_packet = none;
  pool = pool;
}

-- memcpy to position `p`
unfoldable pub copy_bytes : List ℕ → ℕ → List ℕ → Result (List ℕ)
copy_bytes memory p bytes =
    if leb (p + length bytes) (length memory)
    then ok (take p memory ++ (bytes ++ drop (p + length bytes) memory))
    else fault

-- set_le of a uint32_t
unfoldable pub uint32_bytes : ℕ → List ℕ
uint32_bytes n = n % 256 ∷ n / 256 % 256 ∷ n / 65536 % 256 ∷ n / 16777216 % 256 ∷ []

-- `writer.write<uint32_t>(payload_size)` into the header
unfoldable pub prepare_to_send : Packet → Result Packet
unfolding uint32_bytes copy_bytes
prepare_to_send p = do
  let payload_size = p.payload.size % 2 ^ 32
  (header, at) ← grow p.header 4
  memory ← copy_bytes p.memory at (uint32_bytes payload_size)
  ok (record p { header = header; memory = memory })

unfoldable pub prepare_to_receive : Packet → Result Packet
prepare_to_receive p = drop_header p 4

-- The operating system at one turn of the loop in `do_send`: what send() returns for a size, and
-- whether poll() succeeds where the channel has to wait.
pub record Turn : Type 0 where
  pub sending : ℕ → SendRet
  pub polling : Bool

unfoldable pub waited : IoResult → Bool → Result (Unit {0})
unfolding wait_send_ready
waited would_block polled = wait_send_ready polled
waited success polled = ok tt
waited peer_shutdown polled = fault

-- The loop of `do_send`: `bytes` are left, and `wire` is what send() took. Without a turn left the
-- loop is still waiting.
unfoldable pub send_loop : List Turn → List ℕ → List ℕ → Result (List ℕ)
unfolding waited send
send_loop [] bytes wire = if length bytes == 0 then ok wire else timeout
send_loop (turn ∷ turns) bytes wire =
    let rest = (do
      (result, n) ← send (length bytes) true (turn.sending (length bytes))
      _ ← remo_assert (leb n (length bytes))
      _ ← waited result turn.polling
      send_loop turns (drop n bytes) (wire ++ take n bytes)) in
    if length bytes == 0 then ok wire else rest

unfoldable pub do_send : List Turn → Packet → Result (List ℕ)
unfolding send_loop
do_send turns p = send_loop turns (packet_bytes p) []

-- Channel::send: the packet, and the bytes that went to the socket.
unfoldable pub send_packet : List Turn → Packet → Result (Packet × List ℕ)
unfolding prepare_to_send do_send
send_packet turns p = do q ← prepare_to_send p; wire ← do_send turns q; ok (q, wire)

-- Transport::take_packet
pub checked : Option Owned × Pool Packet → Result (Owned × Pool Packet)
checked (none, pool) = throw_if true err_out_of_packets >>= λ _. fault
checked (some x, pool) = do _ ← remo_assert (get_size x.object == 0); ok (x, pool)

unfoldable pub take_packet : Pool Packet → Result (Owned × Pool Packet)
unfolding checked take_first get_size
take_packet pool = checked (take_first pool)

-- A packet for the bytes to come, with the whole array for the payload.
pub rx_packet_of : Option Owned → Pool Packet → Result (Owned × Pool Packet)
unfolding take_packet set_header_capacity
rx_packet_of (some x) pool = ok (x, pool)
rx_packet_of none pool = do
  (x, rest) ← take_packet pool
  p ← set_header_capacity x.object 0
  ok (record x { object = p }, rest)

unfoldable pub prepare_rx_packet : TcpChannel → Result (Owned × TcpChannel)
unfolding rx_packet_of
prepare_rx_packet c = do
  (x, pool) ← rx_packet_of c.rx_packet c.pool
  ok (x, record c { rx_packet = some x; pool = pool })

-- Channel::receive, and the destructor of the packet's pointer behind it: the handler leaves the
-- packet to the channel.
unfoldable pub receive : Owned → TcpChannel → Result TcpChannel
unfolding prepare_to_receive notify_receive give_back
receive x c = do
  p ← prepare_to_receive x.object
  pool ← in_destructor (give_back (record x { object = p }) c.pool)
  ok (record c { base = notify_receive p c.base; pool = pool })

-- The excess bytes go to the next packet: `x` is the complete one, the first `actual` bytes of which
-- belong to it.
pub split_excess : ℕ → Owned → TcpChannel → Result (Owned × TcpChannel)
unfolding prepare_rx_packet copy_bytes set_size
split_excess actual x c = do
  let excess = get_size x.object - actual
  (y, c1) ← prepare_rx_packet c
  _ ← remo_assert (leb excess buffer_size)
  payload ← set_size y.object.payload excess
  memory ←
      copy_bytes y.object.memory (get_data y.object)
        (take excess (drop (get_data x.object + actual) x.object.memory))
  shorter ← set_size x.object.payload actual
  ok (
    record x { object = record x.object { payload = shorter } },
    record c1 {
      rx_packet =
          some (record y { object = record y.object { payload = payload; memory = memory } });
    },
  )

-- From `m_rx_packet` complete on.
unfoldable pub finish_packet : ℕ → Owned → TcpChannel → Result TcpChannel
unfolding split_excess receive get_size get_data
finish_packet actual x c = do
  _ ← remo_assert (leb actual (get_size x.object))
  (x', c') ←
      if ltb 0 (get_size x.object - actual)
      then split_excess actual x (record c { rx_packet = none })
      else ok (x, record c { rx_packet = none })
  receive x' c'

-- The peer has shut down: an incomplete packet is discarded.
unfoldable pub handle_shutdown : Owned → TcpChannel → Result TcpChannel
unfolding give_back handle_closed get_size
handle_shutdown x c = do
  c' ←
      if ltb 0 (get_size x.object)
      then (do
        pool ← in_destructor (give_back x c.pool)
        ok (record c { rx_packet = none; pool = pool }))
      else ok c
  ok (record c' { base = handle_closed c'.base })

-- The packet may be complete by now.
unfoldable pub measured : Owned → TcpChannel → Result TcpChannel
unfolding finish_packet determine_packet_size
measured x c =
    let rest = finish_packet (determine_packet_size x.object) x c in
    if determine_packet_size x.object == packet_incomplete
    then ok (record c { rx_packet = some x })
    else rest

-- The bytes are stored behind the packet.
unfoldable pub handle_bytes : List ℕ → Owned → TcpChannel → Result TcpChannel
unfolding copy_bytes measured get_size get_data
handle_bytes bytes x c = do
  memory ← copy_bytes x.object.memory (get_data x.object + get_size x.object) bytes
  (payload, at) ← grow x.object.payload (length bytes)
  measured (record x { object = record x.object { memory = memory; payload = payload } }) c

pub handle_received : IoResult → List ℕ → Owned → TcpChannel → Result TcpChannel
unfolding handle_bytes handle_shutdown
handle_received peer_shutdown bytes x c = handle_shutdown x c
handle_received success bytes x c = handle_bytes bytes x c
handle_received would_block bytes x c = handle_bytes bytes x c

pub rx_fits : Option Owned → Bool
rx_fits none = true
rx_fits (some x) = leb (get_size x.object) buffer_size

-- TcpChannel::receive_chunk, for what recv() returns for a size.
unfoldable pub receive_chunk : (ℕ → RecvRet) → TcpChannel → Result TcpChannel
unfolding prepare_rx_packet recv handle_received rx_fits is_closed get_size
receive_chunk receiving c = do
  _ ← remo_assert (not (is_closed c.base))
  _ ← remo_assert (rx_fits c.rx_packet)
  (x, c1) ← prepare_rx_packet c
  let size = buffer_size - get_size x.object
  (result, bytes) ← recv size true (receiving size)
  _ ← remo_assert (leb (length bytes) size)
  c2 ← handle_received result bytes x c1
  _ ← remo_assert (rx_fits c2.rx_packet)
  ok c2

-- TcpChannel::connect, once the socket is connected and non-blocking
unfoldable pub connect : TcpChannel → TcpChannel
connect c = record c { base = enter_state opened c.base }

-- TcpChannel::close, but for the shutdown of the socket
unfoldable pub close : TcpChannel → TcpChannel
close c = record c { base = enter_state closing c.base }
