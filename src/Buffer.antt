-- ===== src/Buffer.antt =====
-- src/l1_transport/buffer.h and buffer.cpp: a window of a byte array that grows to one side.
pub mod Bounds
use libremo.Prelude.{ℕ, ◌+◌, ◌-◌, ◌%◌, ◌^◌, ltb, leb, if◌then◌else◌, List, take, drop, length, set}
use libremo.Error.{
  Result, ok, fault, ◌>>=◌, throw_if, remo_assert, err_bad_packet_access, err_packet_full,
}

-- The subclass: `RBuffer` grows to the right, `LBuffer` to the left.
pub data Side : Type 0 where
  left right : Side

-- `data` is the position of `m_data` in the array that it points into. `size_t` has 64 bits.
pub record Buffer : Type 0 where
  pub side : Side
  pub start : ℕ
  pub size : ℕ
  pub capacity : ℕ

abbrev pub size_mod : ℕ
size_mod = 2 ^ 64

unfoldable pub set_size : Buffer → ℕ → Result Buffer
set_size b n = do _ ← remo_assert (leb n b.capacity); ok (record b { size = n })

unfoldable pub init : Buffer → ℕ → ℕ → ℕ → Result Buffer
unfolding set_size
init b start capacity size = set_size (record b { start = start; capacity = capacity }) size

-- The result is the position of the access in the array.
unfoldable pub access_read : Buffer → ℕ → ℕ → Result ℕ
access_read b offset n = do
  _ ← throw_if (ltb b.size ((offset + n) % size_mod)) err_bad_packet_access
  ok (b.start + offset)

unfoldable pub access_write : Buffer → ℕ → ℕ → Result ℕ
access_write b offset n = do
  _ ← throw_if (ltb b.size ((offset + n) % size_mod)) err_bad_packet_access
  ok (b.start + offset)

grow_right : Buffer → ℕ → Result (Buffer × ℕ)
grow_right b n = do
  _ ← throw_if (ltb b.capacity ((b.size + n) % size_mod)) err_packet_full
  b' ← set_size b ((b.size + n) % size_mod)
  p ← access_write b' b.size n
  ok (b', p)

-- `m_data -= a_size`: the start and the size of a header make up its capacity, so the subtraction
-- does not stop at 0.
grow_left : Buffer → ℕ → Result (Buffer × ℕ)
grow_left b n = do
  _ ← throw_if (ltb b.capacity ((b.size + n) % size_mod)) err_packet_full
  b' ← set_size b ((b.size + n) % size_mod)
  p ← access_write (record b' { start = b'.start - n }) 0 n
  ok (record b' { start = b'.start - n }, p)

grow_side : Side → Buffer → ℕ → Result (Buffer × ℕ)
unfolding grow_left grow_right
grow_side left b n = grow_left b n
grow_side right b n = grow_right b n

-- The virtual call.
unfoldable pub grow : Buffer → ℕ → Result (Buffer × ℕ)
unfolding grow_side set_size access_write
grow b n = grow_side b.side b n

-- A write through a pointer into the array; outside of it there is nothing to write to.
unfoldable pub store : List ℕ → ℕ → ℕ → Result (List ℕ)
store memory i v = if ltb i (length memory) then ok (set memory i v) else fault

-- What the buffer shows of the array.
abbrev pub contents : List ℕ → Buffer → List ℕ
contents memory b = take b.size (drop b.start memory)
