-- ===== src/TcpChannel/Chunk.antt =====
-- `receive_chunk` takes the packets out of the stream as the frames say.
use libremo.Prelude.{
  ℕ, ◌+◌, ◌-◌, ◌≤◌, ◌<◌, ◌≡◌, refl, ap, ◌∙◌, true, false, List, ◌∷◌, ◌++◌, ◌==◌, leb, take, drop,
  length, drop-take, Option, none, some, arith, inl, inr, le→leb,
}
use libremo.Error.{ok}
use libremo.Buffer.{contents, grow}
use libremo.Packet.{Packet, max_packet_size, get_size, get_data}
use libremo.Channel.{uint32_at, notify_receive, is_closed, determine_packet_size}
use libremo.Socket.{RecvRet, got, recv}
use libremo.Rpc.Remote.Kept.{count_of}
use libremo.Rpc.Remote.{Owned}
use libremo.TcpChannel.{
  TcpChannel, prepare_rx_packet, finish_packet, receive_chunk, copy_bytes, measured, handle_bytes,
  handle_received,
}
use libremo.TcpChannel.Receive.{finish_lem}
use libremo.TcpChannel.Frames.{split_frame, frame_cases}
use libremo.TcpChannel.Rx.{
  IsRx, Waiting, AllFresh, IsRx-get_size, rx_packet_of_lem, determine_packet_size-eq_frame,
  stored_lem, rx_fits_lem, resized,
}

-- What a chunk does to the bytes that wait: they wait on with it, or the packet at the beginning is
-- handed to the observer and the bytes behind it wait.
abbrev pub Took : TcpChannel → TcpChannel → List ℕ → Option (List ℕ × List ℕ) → Type 0
Took c c' bytes none = Waiting c'.rx_packet bytes × (c'.base ≡ c.base)
Took c c' bytes (some (payload, rest)) =
    (p : Packet) × (contents p.memory p.payload ≡ payload)
    × (c'.base ≡ notify_receive p c.base)
    × Waiting c'.rx_packet rest

measured-part :
    (x : Owned) (c : TcpChannel)
    → determine_packet_size x.object ≡ 0
    → measured x c ≡ ok (record c { rx_packet = some x })
unfolding measured
measured-part x c e = rw e refl

measured-whole :
    (n : ℕ) (x : Owned) (c : TcpChannel)
    → determine_packet_size x.object ≡ n + 4
    → measured x c ≡ finish_packet (n + 4) x c
unfolding measured
measured-whole n x c e = rw (e, positive n) refl
  where
    positive : (k : ℕ) → (k + 4 == 0) ≡ false
    positive k = ground arith

measured_lem :
    (bytes : List ℕ) (x : Owned) (c : TcpChannel)
    → IsRx bytes x
    → AllFresh c.pool
    → 0 < length c.pool
    → (c' : TcpChannel) × (measured x c ≡ ok c')
      × Took c c' bytes (split_frame bytes)
      × AllFresh c'.pool
      × (length c'.pool + count_of c'.rx_packet ≡ length c.pool + 1)
measured_lem bytes x c r f h = elim (frame_cases bytes) [
  | inl (e, none_yet) ↦ (
    record c { rx_packet = some x },
    measured-part x c (determine_packet_size-eq_frame bytes x r ∙ e),
    rw none_yet (r, refl),
    f,
    omega arith,
  )
  | inr (fits, e, split) ↦
      let n = uint32_at bytes in
      let (p, c', run, shown, base, waiting, fs, kept) =
        finish_lem (n + 4) bytes x c r f h (omega arith) fits in
      (
        c',
        measured-whole n x c (determine_packet_size-eq_frame bytes x r ∙ e) ∙ run,
        rw split (
          p,
          shown ∙ drop-take 4 (n + 4) bytes ∙ ap (λ k. take k (drop 4 bytes)) (cancel n),
          base,
          waiting,
        ),
        fs,
        kept,
      )
]
  where
    cancel : (k : ℕ) → k + 4 - 4 ≡ k
    cancel k = omega arith

Took-Waiting :
    (c c' : TcpChannel) (bytes : List ℕ) (o : Option (List ℕ × List ℕ))
    → Took c c' bytes o
    → (left : List ℕ) × Waiting c'.rx_packet left
Took-Waiting c c' bytes none t = (bytes, t.0)
Took-Waiting c c' bytes (some (payload, rest)) t = (rest, t.3)

handle_bytes_lem :
    (chunk m : List ℕ) (x : Owned) (c : TcpChannel) (at : ℕ)
    → copy_bytes x.object.memory (get_data x.object + get_size x.object) chunk ≡ ok m
    → grow x.object.payload (length chunk)
      ≡ ok (record x.object.payload { size = x.object.payload.size + length chunk }, at)
    → handle_bytes chunk x c ≡ measured (resized x m (x.object.payload.size + length chunk)) c
unfolding handle_bytes
handle_bytes_lem chunk m x c at e f = rw (e, f) refl

-- Bytes from the socket that fit into the packet in progress, on a channel that is not closed
-- and has two packets, those in its pool fresh: the chunk is taken. While the bytes that wait
-- make no whole frame, they wait on; otherwise the payload of the first frame is handed to the
-- observer, and the bytes behind it wait. No packet is lost.
pub receive_chunk_lem :
    (bytes chunk : List ℕ) (b : ℕ) (receiving : ℕ → RecvRet) (c : TcpChannel)
    → is_closed c.base ≡ false
    → Waiting c.rx_packet bytes
    → AllFresh c.pool
    → 1 < length c.pool + count_of c.rx_packet
    → receiving (max_packet_size - length bytes) ≡ got (b ∷ chunk)
    → length bytes + length (b ∷ chunk) ≤ max_packet_size
    → (c' : TcpChannel) × (receive_chunk receiving c ≡ ok c')
      × Took c c' (bytes ++ b ∷ chunk) (split_frame (bytes ++ b ∷ chunk))
      × AllFresh c'.pool
      × (length c'.pool + count_of c'.rx_packet ≡ length c.pool + count_of c.rx_packet)
unfolding receive_chunk prepare_rx_packet handle_received recv
receive_chunk_lem bytes chunk b receiving c open_yet waiting f h e fits =
    let (x, rest, e1, r, fs, kept) =
      rx_packet_of_lem c.rx_packet c.pool bytes waiting f (omega arith) in
    let (m, ry, copied, grows) = stored_lem bytes (b ∷ chunk) x r fits in
    let c1 : TcpChannel = record c { rx_packet = some x; pool = rest } in
    let y : Owned = resized x m (x.object.payload.size + length (b ∷ chunk)) in
    let (c', run, took, fs', kept') = measured_lem (bytes ++ b ∷ chunk) y c1 ry fs (omega arith) in
    let (left, waits) = Took-Waiting c1 c' _ _ took in
    let room : leb (length (b ∷ chunk)) (max_packet_size - length bytes) ≡ true =
      le→leb _ _ (omega arith) in
    (
      c',
      rw
          (
            open_yet,
            rx_fits_lem c.rx_packet bytes waiting,
            e1,
            IsRx-get_size bytes x r,
            e,
            room,
            handle_bytes_lem (b ∷ chunk) m x c1 _ copied grows ∙ run,
            rx_fits_lem c'.rx_packet left waits,
          )
          refl,
      took,
      fs',
      omega arith,
    )
