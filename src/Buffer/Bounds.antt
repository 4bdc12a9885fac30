-- ===== src/Buffer/Bounds.antt =====
-- The bounds that the buffers of buffer.cpp keep.
use libremo.Prelude.{ℕ, ◌+◌, ◌-◌, ◌^◌, ◌≤◌, ◌<◌, ◌≡◌, arith}
use libremo.Error.{ok, error, err_packet_full}
use libremo.Buffer.{Buffer, Side, left, right, grow, grow_side}

-- The window after it has grown by `n`, and where the new bytes stand.
abbrev pub grown : Side → Buffer → ℕ → Buffer × ℕ
grown right b n = (record b { size = b.size + n }, b.start + b.size)
grown left b n = (record b { size = b.size + n; start = b.start - n }, b.start - n)

grow_side-fits :
    (s : Side) (b : Buffer) (n : ℕ)
    → b.capacity < 2 ^ 64
    → b.size + n ≤ b.capacity
    → grow_side s b n ≡ ok (grown s b n)
unfolding grow
grow_side-fits right b n c k = ground arith
grow_side-fits left b n c k = ground arith

pub grow-fits :
    (b : Buffer) (n : ℕ)
    → b.capacity < 2 ^ 64
    → b.size + n ≤ b.capacity
    → grow b n ≡ ok (grown b.side b n)
unfolding grow
grow-fits b n c k = grow_side-fits b.side b n c k

grow_side-full :
    (s : Side) (b : Buffer) (n : ℕ)
    → b.size + n < 2 ^ 64
    → b.capacity < b.size + n
    → grow_side s b n ≡ error err_packet_full
unfolding grow
grow_side-full right b n c k = ground arith
grow_side-full left b n c k = ground arith

pub grow-full :
    (b : Buffer) (n : ℕ)
    → b.size + n < 2 ^ 64
    → b.capacity < b.size + n
    → grow b n ≡ error err_packet_full
unfolding grow
grow-full b n c k = grow_side-full b.side b n c k
