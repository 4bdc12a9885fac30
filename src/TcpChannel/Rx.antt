-- ===== src/TcpChannel/Rx.antt =====
-- The packet that a channel receives into.
use libremo.Prelude.{
  ℕ, ◌+◌, ◌≤◌, ◌<◌, ◌≡◌, refl, sym, ap, subst, ◌∙◌, true, List, [], ◌∷◌, ◌++◌, ◌==◌, leb, take,
  drop, length, length-append, length-take, length-drop, take-length_append, Option, none, some,
  arith, All, append_assoc, Bool-cases, inl, inr, leb→le, le→leb,
}
use libremo.Error.{ok}
use libremo.Buffer.{contents, grow}
use libremo.Buffer.Bounds.{grow-fits, grown}
use libremo.Packet.{Packet, max_packet_size, set_header_capacity, get_size, get_data}
use libremo.Packet.Layout.{IsReadable, IsFresh, at_border, at_border-IsFresh}
use libremo.Channel.{determine_packet_size, uint32_at}
use libremo.Rpc.Pool.{Pool, take_first}
use libremo.Rpc.Remote.{Owned}
use libremo.Rpc.Remote.Kept.{count_of}
use libremo.TcpChannel.{rx_packet_of, take_packet, checked, copy_bytes, rx_fits}
use libremo.TcpChannel.Frames.{frame_size, uint32_at-take}

-- A packet from the pool, with the whole array for its payload, which holds these bytes.
pub record IsRx (bytes : List ℕ) (x : Owned) : Type 0 where
  pub pooled : x.pooled ≡ true
  pub readable : IsReadable x.object
  pub header_start : x.object.header.start ≡ 0
  pub header_empty : x.object.header.size ≡ 0
  pub payload_start : x.object.payload.start ≡ 0
  pub capacity : x.object.payload.capacity ≡ max_packet_size
  pub shown : contents x.object.memory x.object.payload ≡ bytes

-- The bytes that wait for the rest of their packet; without a packet there are none.
abbrev pub Waiting : Option Owned → List ℕ → Type 0
Waiting none bytes = bytes ≡ []
Waiting (some x) bytes = IsRx bytes x

abbrev pub AllFresh : Pool Packet → Type 0
AllFresh pool = All (λ x. IsFresh 128 x.object) pool

pub IsRx-size : (bytes : List ℕ) (x : Owned) → IsRx bytes x → x.object.payload.size ≡ length bytes
IsRx-size bytes x r = omega (
  arith,
  ap length r.shown,
  length-take x.object.payload.size (drop x.object.payload.start x.object.memory),
  length-drop x.object.payload.start x.object.memory,
  r.readable.memory_size,
  r.readable.payload_end,
)

-- The bytes stand at the beginning of the array.
pub IsRx-shown :
    (bytes : List ℕ) (x : Owned) → IsRx bytes x → take (length bytes) x.object.memory ≡ bytes
IsRx-shown bytes x r = rw (← IsRx-size bytes x r) (
    subst (λ n. take x.object.payload.size (drop n x.object.memory) ≡ bytes) r.payload_start
      r.shown)

pub IsRx-get_size : (bytes : List ℕ) (x : Owned) → IsRx bytes x → get_size x.object ≡ length bytes
unfolding get_size
IsRx-get_size bytes x r = omega (arith, IsRx-size bytes x r, r.header_empty)

pub empty_rx : Owned → Owned
empty_rx x = record { object = at_border x.object 0; pooled = true }

fresh_empty : (x : Owned) → IsFresh 128 x.object → (get_size x.object == 0) ≡ true
unfolding get_size
fresh_empty x f = ground (arith, f.header_empty, f.payload_empty)

pub rx-of_fresh :
    (x : Owned) (rest : Pool Packet)
    → IsFresh 128 x.object
    → rx_packet_of none (x ∷ rest) ≡ ok (empty_rx x, rest)
unfolding rx_packet_of take_packet checked take_first set_header_capacity empty_rx
rx-of_fresh x rest f = rw (fresh_empty x f) refl

pub empty_rx-IsRx : (x : Owned) → IsFresh 128 x.object → IsRx [] (empty_rx x)
unfolding empty_rx
empty_rx-IsRx x f =
    let v = f.writable.readable in
    let e =
      at_border-IsFresh x.object 0 (omega arith) v.memory_size v.header_left v.payload_right in
    record {
      pooled = refl;
      readable = e.writable.readable;
      header_start = refl;
      header_empty = refl;
      payload_start = refl;
      capacity = refl;
      shown = refl;
    }

-- A packet to receive into is there, or comes from the pool.
pub rx_packet_of_lem :
    (r : Option Owned) (pool : Pool Packet) (bytes : List ℕ)
    → Waiting r bytes
    → AllFresh pool
    → 0 < length pool + count_of r
    → (x : Owned) × (rest : Pool Packet) × (rx_packet_of r pool ≡ ok (x, rest))
      × IsRx bytes x
      × AllFresh rest
      × (length rest + 1 ≡ length pool + count_of r)
unfolding rx_packet_of
rx_packet_of_lem (some x) pool bytes w f h = (x, pool, refl, w, f, omega arith)
rx_packet_of_lem none [] bytes w f h = absurd (omega arith)
rx_packet_of_lem none (x ∷ rest) bytes w (f, fs) h = (
  empty_rx x,
  rest,
  rx-of_fresh x rest f,
  subst (λ b. IsRx b (empty_rx x)) (sym w) (empty_rx-IsRx x f),
  fs,
  omega arith,
)

-- The frame is measured by the bytes that the packet holds.
pub determine_packet_size-eq_frame :
    (bytes : List ℕ) (x : Owned) → IsRx bytes x → determine_packet_size x.object ≡ frame_size bytes
unfolding determine_packet_size frame_size get_data
determine_packet_size-eq_frame bytes x r = elim (Bool-cases (leb 4 (length bytes))) [
  | inl e ↦
      let value : uint32_at x.object.memory ≡ uint32_at bytes =
        sym (uint32_at-take (length bytes) x.object.memory (leb→le 4 (length bytes) e))
        ∙ ap uint32_at (IsRx-shown bytes x r) in
      rw (IsRx-get_size bytes x r, e, r.header_start, value) refl
  | inr e ↦ rw (IsRx-get_size bytes x r, e) refl
]

take_front : (xs ys zs : List ℕ) → take (length (xs ++ ys)) (xs ++ (ys ++ zs)) ≡ xs ++ ys
take_front xs ys zs = rw (← append_assoc xs ys zs) (take-length_append (xs ++ ys) zs)

-- Storing bytes behind the others and growing over them.
pub copy_bytes-behind :
    (m : List ℕ) (n : ℕ) (bytes : List ℕ)
    → n + length bytes ≤ length m
    → (m' : List ℕ) × (copy_bytes m n bytes ≡ ok m')
      × (length m' ≡ length m)
      × (take (n + length bytes) m' ≡ take n m ++ bytes)
unfolding copy_bytes
copy_bytes-behind m n bytes h =
    let front : length (take n m) ≡ n = omega (arith, length-take n m) in
    let whole = take n m ++ (bytes ++ drop (n + length bytes) m) in
    (
      whole,
      rw (le→leb (n + length bytes) (length m) h) refl,
      omega (
        arith,
        length-append (take n m) (bytes ++ drop (n + length bytes) m),
        length-append bytes (drop (n + length bytes) m),
        length-drop (n + length bytes) m,
      ),
      ap (λ k. take k whole) (omega (arith, front, length-append (take n m) bytes))
          ∙ take_front (take n m) bytes (drop (n + length bytes) m),
    )

abbrev pub resized : Owned → List ℕ → ℕ → Owned
resized x m n = record x {
  object = record x.object { memory = m; payload = record x.object.payload { size = n } };
}

-- The same packet with another array and another size of its payload.
pub IsRx-resized :
    (bytes bytes' m : List ℕ) (n : ℕ) (x : Owned)
    → IsRx bytes x
    → length m ≡ max_packet_size
    → n ≤ max_packet_size
    → take n m ≡ bytes'
    → IsRx bytes' (resized x m n)
IsRx-resized bytes bytes' m n x r l h e = record {
  pooled = r.pooled;
  readable = record {
    memory_size = l;
    header_left = r.readable.header_left;
    payload_right = r.readable.payload_right;
    header_end = r.readable.header_end;
    border = r.readable.border;
    payload_end = omega (arith, r.payload_start);
    payload_full = omega (arith, r.capacity);
    payload_cap = r.readable.payload_cap;
  };
  header_start = r.header_start;
  header_empty = r.header_empty;
  payload_start = r.payload_start;
  capacity = r.capacity;
  shown = ap (λ k. take n (drop k m)) r.payload_start ∙ e;
}

-- The bytes that were received stand behind the others.
pub stored_lem :
    (bytes chunk : List ℕ) (x : Owned)
    → IsRx bytes x
    → length bytes + length chunk ≤ max_packet_size
    → (m : List ℕ) × IsRx (bytes ++ chunk) (resized x m (x.object.payload.size + length chunk))
      × (copy_bytes x.object.memory (get_data x.object + get_size x.object) chunk ≡ ok m)
      × (grow x.object.payload (length chunk)
          ≡ ok (
            record x.object.payload { size = x.object.payload.size + length chunk },
            x.object.payload.start + x.object.payload.size,
          ))
unfolding get_data
stored_lem bytes chunk x r h =
    let size = IsRx-size bytes x r in
    let v = r.readable in
    let (m', e, l, t) =
      copy_bytes-behind x.object.memory (length bytes) chunk (omega (arith, v.memory_size)) in
    (
      m',
      IsRx-resized bytes (bytes ++ chunk) m' _ x r (l ∙ v.memory_size) (omega arith)
          (ap (λ n. take n m') (omega arith) ∙ t ∙ ap (λ b. b ++ chunk) (IsRx-shown bytes x r)),
      ap (λ k. copy_bytes x.object.memory k chunk)
            (omega (arith, r.header_start, IsRx-get_size bytes x r))
          ∙ e,
      grow-fits x.object.payload (length chunk) (omega (arith, r.capacity))
            (omega (arith, r.capacity))
          ∙ ap (λ s. ok (grown s x.object.payload (length chunk))) v.payload_right,
    )

pub rx_fits_lem : (r : Option Owned) (bytes : List ℕ) → Waiting r bytes → rx_fits r ≡ true
unfolding rx_fits
rx_fits_lem none bytes w = refl
rx_fits_lem (some x) bytes w = le→leb (get_size x.object) max_packet_size (
    omega
      (arith, IsRx-get_size bytes x w, IsRx-size bytes x w, w.readable.payload_full, w.capacity))
