-- ===== src/TcpChannel/Receive.antt =====
-- A complete packet is taken out of the stream, and the bytes behind it are kept.
use libremo.Prelude.{
  ℕ, ◌+◌, ◌-◌, ◌≤◌, ◌<◌, ◌≡◌, refl, sym, ap, ◌∙◌, List, [], ◌∷◌, take, drop, length, length-take,
  length-drop, take-take_le, take_all, drop_all, drop-take, none, some, arith, le→leb, lt→ltb,
  le→ltb,
}
use libremo.Error.{ok}
use libremo.Buffer.{Buffer, contents, set_size}
use libremo.Packet.{Packet, max_packet_size, get_data}
use libremo.Packet.Layout.{IsFresh, drop_header-IsReadable}
use libremo.Channel.{notify_receive}
use native.Mathlib.Decide.{dec_lt}
use libremo.Rpc.Remote.Kept.{count_of}
use libremo.Rpc.Remote.{Owned}
use libremo.Rpc.Remote.Loopback.{emptied, give_back-eq, emptied-IsFresh}
use libremo.TcpChannel.{
  TcpChannel, receive, split_excess, prepare_rx_packet, prepare_to_receive, finish_packet,
}
use libremo.TcpChannel.Rx.{
  IsRx, Waiting, AllFresh, IsRx-size, IsRx-get_size, IsRx-shown, rx_packet_of_lem, IsRx-resized,
  resized, copy_bytes-behind,
}

window :
    (m m' : List ℕ) (s s' n n' : ℕ)
    → m ≡ m'
    → s ≡ s'
    → n ≡ n'
    → take n (drop s m) ≡ take n' (drop s' m')
window m m' s s' n n' e f g = rw (e, f, g) refl

set_size_lem : (b : Buffer) (n : ℕ) → n ≤ b.capacity → set_size b n ≡ ok (record b { size = n })
unfolding set_size
set_size_lem b n h = ground arith

-- A complete packet is handed to the observer without its header, and given back.
receive_lem :
    (bytes : List ℕ) (x : Owned) (c : TcpChannel)
    → IsRx bytes x
    → 4 ≤ length bytes
    → (p : Packet) × (y : Owned) × (receive x c
        ≡ ok (record c { base = notify_receive p c.base; pool = y ∷ c.pool }))
      × (contents p.memory p.payload ≡ drop 4 bytes)
      × IsFresh 128 y.object
unfolding receive prepare_to_receive
receive_lem bytes x c r h =
    let size = IsRx-size bytes x r in
    let (q, e, readable, start, less, same) =
      drop_header-IsReadable x.object 4 r.readable (omega arith) in
    let y : Owned = record x { object = q } in
    (
      q,
      emptied y,
      rw (e, give_back-eq y c.pool r.pooled) refl,
      window q.memory x.object.memory q.payload.start 4 q.payload.size (length bytes - 4) same
            (omega (arith, r.payload_start)) (omega arith)
          ∙ sym (drop-take 4 (length bytes) x.object.memory)
          ∙ ap (λ b. drop 4 b) (IsRx-shown bytes x r),
      emptied-IsFresh y readable,
    )

abbrev without_rx : TcpChannel → TcpChannel
without_rx c = record c { rx_packet = none }

split_lem :
    (actual : ℕ) (bytes : List ℕ) (x : Owned) (c : TcpChannel)
    → IsRx bytes x
    → AllFresh c.pool
    → 0 < length c.pool
    → 4 ≤ actual
    → actual < length bytes
    → (x' : Owned) × (c' : TcpChannel) × (split_excess actual x (without_rx c) ≡ ok (x', c'))
      × IsRx (take actual bytes) x'
      × Waiting c'.rx_packet (drop actual bytes)
      × AllFresh c'.pool
      × (c'.base ≡ c.base)
      × (length c'.pool + count_of c'.rx_packet ≡ length c.pool)
unfolding split_excess prepare_rx_packet get_data
split_lem actual bytes x c r f h four more =
    let (z, rest, e1, rz, fs, kept) = rx_packet_of_lem none c.pool [] refl f (omega arith) in
    let excess = length bytes - actual in
    let size = IsRx-get_size bytes x r in
    let payload_size = IsRx-size bytes x r in
    let chunk : List ℕ = take excess (drop (get_data x.object + actual) x.object.memory) in
    let at : get_data x.object + actual ≡ actual = omega (arith, r.header_start) in
    let chunk-eq : chunk ≡ drop actual bytes =
      ap (λ k. take excess (drop k x.object.memory)) at
      ∙ sym (drop-take actual (length bytes) x.object.memory)
      ∙ ap (λ b. drop actual b) (IsRx-shown bytes x r) in
    let chunk-length : length chunk ≡ excess =
      omega (arith, ap length chunk-eq, length-drop actual bytes) in
    let (m', e2, l, t) =
      copy_bytes-behind z.object.memory 0 chunk
        (omega (arith, rz.readable.memory_size, r.readable.payload_full, r.capacity)) in
    let small : excess ≤ max_packet_size = omega (arith, r.readable.payload_full, r.capacity) in
    (
      resized x x.object.memory actual,
      record c { rx_packet = some (resized z m' excess); pool = rest },
      rw
          (
            size,
            e1,
            le→leb excess max_packet_size small,
            set_size_lem z.object.payload excess (omega (arith, rz.capacity)),
            rz.header_start,
            e2,
            set_size_lem x.object.payload actual (omega (arith, r.readable.payload_full)),
          )
          refl,
      IsRx-resized bytes (take actual bytes) x.object.memory actual x r r.readable.memory_size
          (omega arith)
          (sym (take-take_le actual (length bytes) x.object.memory (omega arith))
            ∙ ap (λ b. take actual b) (IsRx-shown bytes x r)),
      IsRx-resized [] (drop actual bytes) m' excess z rz (l ∙ rz.readable.memory_size) small
          (ap (λ n. take n m') (omega arith) ∙ t ∙ chunk-eq),
      fs,
      refl,
      omega arith,
    )

-- What finishing a complete packet comes to.
pub finish_lem :
    (actual : ℕ) (bytes : List ℕ) (x : Owned) (c : TcpChannel)
    → IsRx bytes x
    → AllFresh c.pool
    → 0 < length c.pool
    → 4 ≤ actual
    → actual ≤ length bytes
    → (p : Packet) × (c' : TcpChannel) × (finish_packet actual x c ≡ ok c')
      × (contents p.memory p.payload ≡ drop 4 (take actual bytes))
      × (c'.base ≡ notify_receive p c.base)
      × Waiting c'.rx_packet (drop actual bytes)
      × AllFresh c'.pool
      × (length c'.pool + count_of c'.rx_packet ≡ length c.pool + 1)
unfolding finish_packet
finish_lem actual bytes x c r f h four fits =
    let size = IsRx-get_size bytes x r in
    elim (dec_lt actual (length bytes)) [
      | yes more ↦
          let (x', c1, e, r', waiting, fs, same, kept) =
            split_lem actual bytes x c r f h four more in
          let (p, y, e', shown, fresh) =
            receive_lem (take actual bytes) x' c1 r' (omega (arith, length-take actual bytes)) in
          (
            p,
            record c1 { base = notify_receive p c1.base; pool = y ∷ c1.pool },
            rw
                (
                  e,
                  size,
                  le→leb actual (length bytes) fits,
                  lt→ltb 0 (length bytes - actual) (omega arith),
                )
                e',
            shown,
            ap (notify_receive p) same,
            waiting,
            (fresh, fs),
            omega arith,
          )
      | no enough ↦
          let exact : take actual bytes ≡ bytes = take_all actual bytes (omega arith) in
          let (p, y, e', shown, fresh) = receive_lem bytes x (without_rx c) r (omega arith) in
          (
            p,
            record (without_rx c) { base = notify_receive p c.base; pool = y ∷ c.pool },
            rw
                (
                  size,
                  le→leb actual (length bytes) fits,
                  le→ltb 0 (length bytes - actual) (omega arith),
                )
                e',
            shown ∙ ap (λ b. drop 4 b) (sym exact),
            refl,
            drop_all actual bytes (omega arith),
            (fresh, f),
            omega arith,
          )
    ]
