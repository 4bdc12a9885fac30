-- ===== src/Packet/Layout.antt =====
-- Where the two buffers of a packet lie in its array, and which operations keep them there.
use libremo.Prelude.{
  ℕ, ◌+◌, ◌-◌, ◌≤◌, ◌<◌, ◌≡◌, refl, ap, ◌∙◌, arith, List, le→ltb, length, length-replicate,
}
use libremo.Error.{ok, fault}
use libremo.Buffer.{Buffer, left, right, grow, store}
use libremo.Buffer.Bounds.{grow-fits, grown}
use libremo.Packet.{
  Packet, blank, max_packet_size, set_header_capacity, new_packet, reset_packet, drop_header,
}

-- The header ends at the border, which its capacity names; the payload starts there or behind it, and
-- what it shows lies in the array.
pub record IsReadable (p : Packet) : Type 0 where
  pub memory_size : length p.memory ≡ max_packet_size
  pub header_left : p.header.side ≡ left
  pub payload_right : p.payload.side ≡ right
  pub header_end : p.header.start + p.header.size ≡ p.header.capacity
  pub border : p.header.capacity ≤ p.payload.start
  pub payload_end : p.payload.start + p.payload.size ≤ max_packet_size
  pub payload_full : p.payload.size ≤ p.payload.capacity
  pub payload_cap : p.payload.capacity ≤ max_packet_size

-- All that the payload may grow to lies in the array too.
pub record IsWritable (p : Packet) : Type 0 where
  pub readable : IsReadable p
  pub room : p.payload.start + p.payload.capacity ≤ max_packet_size

-- An empty packet with the border at `c`.
pub record IsFresh (c : ℕ) (p : Packet) : Type 0 where
  pub writable : IsWritable p
  pub header_empty : p.header.size ≡ 0
  pub payload_empty : p.payload.size ≡ 0
  pub header_capacity : p.header.capacity ≡ c
  pub payload_start : p.payload.start ≡ c
  pub payload_capacity : p.payload.capacity ≡ max_packet_size - c

abbrev pub at_border : Packet → ℕ → Packet
at_border p c = record p {
  header = record { side = p.header.side; start = c; size = 0; capacity = c };
  payload = record { side = p.payload.side; start = c; size = 0; capacity = max_packet_size - c };
}

set_header_capacity-eq_ok :
    (p : Packet) (c : ℕ) → c ≤ max_packet_size → set_header_capacity p c ≡ ok (at_border p c)
unfolding set_header_capacity
set_header_capacity-eq_ok p c h = ground arith

pub at_border-IsFresh :
    (p : Packet) (c : ℕ)
    → c ≤ max_packet_size
    → length p.memory ≡ max_packet_size
    → p.header.side ≡ left
    → p.payload.side ≡ right
    → IsFresh c (at_border p c)
at_border-IsFresh p c h m l r = ground arith

-- Setting the header capacity empties the packet.
pub set_header_capacity-IsFresh :
    (p : Packet) (c : ℕ)
    → c ≤ max_packet_size
    → length p.memory ≡ max_packet_size
    → p.header.side ≡ left
    → p.payload.side ≡ right
    → (q : Packet) × (set_header_capacity p c ≡ ok q) × IsFresh c q × (q.memory ≡ p.memory)
set_header_capacity-IsFresh p c h m l r =
    (at_border p c, set_header_capacity-eq_ok p c h, at_border-IsFresh p c h m l r, refl)

pub new_packet-IsFresh : (q : Packet) × (new_packet ≡ ok q) × IsFresh 128 q
unfolding new_packet
new_packet-IsFresh = (
  at_border blank 128,
  set_header_capacity-eq_ok blank 128 (omega arith),
  at_border-IsFresh blank 128 (omega arith) (length-replicate {A = ℕ} 1024 0) refl refl,
)

-- A readable packet goes back to its pool empty and with its border in place.
pub reset_packet-IsFresh :
    (p : Packet) → IsReadable p → (q : Packet) × (reset_packet p ≡ ok q) × IsFresh 128 q
unfolding reset_packet
reset_packet-IsFresh p v = (
  at_border p 128,
  set_header_capacity-eq_ok p 128 (omega arith),
  at_border-IsFresh p 128 (omega arith) v.memory_size v.header_left v.payload_right,
)

-- Dropping a header that the payload holds keeps the packet readable, moves the start of the
-- payload behind it and leaves the array as it was.
pub drop_header-IsReadable :
    (p : Packet) (n : ℕ)
    → IsReadable p
    → n ≤ p.payload.size
    → (q : Packet) × (drop_header p n ≡ ok q)
      × IsReadable q
      × (q.payload.start ≡ p.payload.start + n)
      × (q.payload.size + n ≡ p.payload.size)
      × (q.memory ≡ p.memory)
unfolding drop_header
drop_header-IsReadable p n v h = (
  record p {
    payload = record p.payload { start = p.payload.start + n; size = p.payload.size - n };
  },
  ground arith,
  ground arith,
  ground arith,
  ground arith,
  refl,
)

store-behind : (m : List ℕ) (i v : ℕ) → length m ≤ i → store m i v ≡ fault
unfolding store
store-behind m i v h = rw (le→ltb i (length m) h) refl

-- When a header of at least one byte is dropped from the payload of a readable packet, and the
-- payload could grow up to the end of the array, its capacity stays as it was; it may still grow
-- up to this capacity, which ends as many bytes behind the array as the header had, and a write
-- of its last byte is outside of the array.
pub drop_header_overrun :
    (p : Packet) (n v : ℕ)
    → IsReadable p
    → p.payload.start + p.payload.capacity ≡ max_packet_size
    → 0 < n
    → n ≤ p.payload.size
    → (q : Packet) × (drop_header p n ≡ ok q)
      × (q.payload.capacity ≡ p.payload.capacity)
      × (b : Buffer) × (at : ℕ) × (grow q.payload (q.payload.capacity - q.payload.size)
          ≡ ok (b, at))
      × (b.start + b.size ≡ max_packet_size + n)
      × (store q.memory (b.start + b.size - 1) v ≡ fault)
unfolding drop_header
drop_header_overrun p n v r e h k =
    let payload : Buffer = record p.payload {
      start = p.payload.start + n;
      size = p.payload.size - n;
    } in
    let more : ℕ = payload.capacity - payload.size in
    let cap = r.payload_cap in
    let full = r.payload_full in
    (
      record p { payload = payload },
      ground (arith, k),
      refl,
      record payload { size = payload.size + more },
      payload.start + payload.size,
      grow-fits payload more (omega (arith, cap)) (omega (arith, full))
          ∙ ap (λ side. ok (grown side payload more)) r.payload_right,
      omega (arith, full, e),
      store-behind p.memory (payload.start + (payload.size + more) - 1) v
          (omega (arith, r.memory_size, full, e)),
    )
