-- ===== src/Packet.antt =====
-- src/l1_transport/packet.h and packet.cpp: one array, the header growing left of a border in it and
-- the payload growing right of it.
pub mod Layout
use libremo.Prelude.{ℕ, ◌+◌, ◌-◌, leb, List, replicate, take, drop}
use libremo.Error.{Result, ok, ◌>>=◌, remo_assert}
use libremo.Buffer.{Buffer, Side, left, right, init, contents}

-- REMO_MAX_PACKET_SIZE and REMO_MAX_PACKET_HEADER_SIZE, as the header defaults them.
abbrev pub max_packet_size : ℕ
max_packet_size = 1024

abbrev pub max_packet_header_size : ℕ
max_packet_header_size = 128

-- PacketType
abbrev pub packet_ack : ℕ
packet_ack = 0x3A

abbrev pub packet_call : ℕ
packet_call = 0x3E

abbrev pub packet_result : ℕ
packet_result = 0x3C

abbrev pub packet_query : ℕ
packet_query = 0x3F

abbrev pub packet_info : ℕ
packet_info = 0x21

-- `m_buffer`, `m_header` and `m_payload`.
pub record Packet : Type 0 where
  pub memory : List ℕ
  pub header : Buffer
  pub payload : Buffer

-- `sizeof(m_buffer)`
abbrev pub buffer_size : ℕ
buffer_size = max_packet_size

unfoldable pub set_header_capacity : Packet → ℕ → Result Packet
unfolding init
set_header_capacity p capacity = do
  _ ← remo_assert (leb capacity buffer_size)
  header ← init p.header capacity capacity 0
  payload ← init p.payload capacity (buffer_size - capacity) 0
  ok (record p { header = header; payload = payload })

abbrev pub empty_buffer : Side → Buffer
empty_buffer side = record { side = side; start = 0; size = 0; capacity = 0 }

-- The members as the constructor initialises them.
abbrev pub blank : Packet
blank = record {
  memory = replicate max_packet_size 0;
  header = empty_buffer left;
  payload = empty_buffer right;
}

unfoldable pub new_packet : Result Packet
unfolding set_header_capacity
new_packet = set_header_capacity blank max_packet_header_size

-- What `Packet::recycle` does before it hands the packet to its pool.
unfoldable pub reset_packet : Packet → Result Packet
unfolding set_header_capacity
reset_packet p = set_header_capacity p max_packet_header_size

unfoldable pub get_size : Packet → ℕ
get_size p = p.header.size + p.payload.size

unfoldable pub get_data : Packet → ℕ
get_data p = p.header.start

unfoldable pub drop_header : Packet → ℕ → Result Packet
unfolding init
drop_header p n = do
  _ ← remo_assert (leb n p.payload.size)
  payload ← init p.payload (p.payload.start + n) p.payload.capacity (p.payload.size - n)
  ok (record p { payload = payload })

-- The bytes from `get_data()` on, `get_size()` of them: what a channel sends.
unfoldable pub packet_bytes : Packet → List ℕ
unfolding get_size get_data
packet_bytes p = take (get_size p) (drop (get_data p) p.memory)
