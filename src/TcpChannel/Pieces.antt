-- ===== src/TcpChannel/Pieces.antt =====
-- The stream arrives in pieces: where it is cut does not matter.
use libremo.Prelude.{
  ℕ, ◌+◌, ◌≤◌, ◌<◌, ◌≡◌, refl, sym, ap, ◌∙◌, subst, false, List, [], ◌∷◌, ◌++◌, length,
  length-append, append-nil, append_assoc, none, some, arith, inl, inr, Bool-cases,
  take-length_append, ◌^◌, ◌%◌,
}
use libremo.Error.{Result, ok, ◌>>=◌}
use libremo.Buffer.{contents}
use libremo.Packet.{Packet, max_packet_size}
use libremo.Channel.{
  Channel, Event, received, state_changed, transport_closed, uint32_at, notify_receive, is_closed,
}
use libremo.Socket.{got}
use libremo.Rpc.Remote.Kept.{count_of}
use libremo.TcpChannel.{TcpChannel, receive_chunk, uint32_bytes}
use libremo.TcpChannel.Frames.{
  split_frame, split_frame-frame, frame, frame_cases, uint32_at-take, uint32_at-bytes,
}
use libremo.TcpChannel.Rx.{Waiting, AllFresh}
use libremo.TcpChannel.Chunk.{Took, receive_chunk_lem}

-- A piece of the stream: at least one byte.
abbrev pub Piece : Type 0
Piece = ℕ × List ℕ

abbrev pub joined : List Piece → List ℕ
joined [] = []
joined ((b, bytes) ∷ pieces) = b ∷ bytes ++ joined pieces

-- The pieces arrive one after the other, each in a call of its own.
unfoldable pub receive_pieces : List Piece → TcpChannel → Result TcpChannel
receive_pieces [] c = ok c
receive_pieces ((b, bytes) ∷ pieces) c = do
  c' ← receive_chunk (λ size. got (b ∷ bytes)) c
  receive_pieces pieces c'

pub length-frame : (payload : List ℕ) → length (frame payload) ≡ length payload + 4
unfolding frame uint32_bytes
length-frame payload = omega arith

uint32_at-append : (xs ys : List ℕ) → 4 ≤ length xs → uint32_at (xs ++ ys) ≡ uint32_at xs
uint32_at-append xs ys h =
    sym (uint32_at-take (length xs) (xs ++ ys) h) ∙ ap uint32_at (take-length_append xs ys)

-- What stands before the last byte of a frame is no whole frame.
split_frame-part :
    (payload xs : List ℕ) (b : ℕ) (ys : List ℕ)
    → length payload < 2 ^ 32
    → xs ++ b ∷ ys ≡ frame payload
    → split_frame xs ≡ none
unfolding frame
split_frame-part payload xs b ys h e = elim (frame_cases xs) [
  | inl (_, none_yet) ↦ none_yet
  | inr (fits, _, _) ↦
      let value : uint32_at xs ≡ length payload =
        sym (uint32_at-append xs (b ∷ ys) (omega arith))
        ∙ ap uint32_at e
        ∙ uint32_at-bytes (length payload) payload h in
      absurd (omega (arith, length-frame payload, ap length e, length-append xs (b ∷ ys)))
]

-- A channel that can take packets: it is not closed, these bytes wait, and it has two packets.
pub record IsReceiving (bytes : List ℕ) (c : TcpChannel) : Type 0 where
  pub is_open : is_closed c.base ≡ false
  pub waiting : Waiting c.rx_packet bytes
  pub fresh : AllFresh c.pool
  pub packets : 1 < length c.pool + count_of c.rx_packet

-- The payloads that an observer got, in order.
unfoldable pub heard : List Event → List (List ℕ)
heard [] = []
heard (received p ∷ events) = contents p.memory p.payload ∷ heard events
heard (state_changed s ∷ events) = heard events
heard (transport_closed ∷ events) = heard events

pub heard-append : (xs ys : List Event) → heard (xs ++ ys) ≡ heard xs ++ heard ys
unfolding heard
heard-append [] ys = refl
heard-append (received p ∷ xs) ys = ap (λ l. contents p.memory p.payload ∷ l) (heard-append xs ys)
heard-append (state_changed s ∷ xs) ys = heard-append xs ys
heard-append (transport_closed ∷ xs) ys = heard-append xs ys

-- The payload was handed to the observer.
abbrev pub Received : List ℕ → TcpChannel → TcpChannel → Type 0
Received payload c c' =
    (p : Packet) × (contents p.memory p.payload ≡ payload) × (c'.base ≡ notify_receive p c.base)

is_closed-notify : (p : Packet) (c : Channel) → is_closed (notify_receive p c) ≡ is_closed c
unfolding is_closed notify_receive
is_closed-notify p c = elim (Bool-cases c.receive_handler) [ inl e ↦ rw e refl | inr e ↦ rw e refl ]

after_piece :
    (b : ℕ) (chunk bytes rest : List ℕ) (c : TcpChannel)
    → IsReceiving bytes c
    → length bytes + length (b ∷ chunk) ≤ max_packet_size
    → split_frame (bytes ++ b ∷ chunk) ≡ none
    → (c' : TcpChannel) × (receive_chunk (λ size. got (b ∷ chunk)) c ≡ ok c')
      × IsReceiving (bytes ++ b ∷ chunk) c'
      × (c'.base ≡ c.base)
after_piece b chunk bytes rest c v fits e =
    let (c', run, took, fresh, kept) =
      receive_chunk_lem bytes chunk b (λ size. got (b ∷ chunk)) c v.is_open v.waiting v.fresh
        v.packets refl fits in
    let (waiting, same) = subst (Took c c' (bytes ++ b ∷ chunk)) e took in
    (
      c',
      run,
      record {
        is_open = ap is_closed same ∙ v.is_open;
        waiting = waiting;
        fresh = fresh;
        packets = omega (arith, v.packets);
      },
      same,
    )

last_piece :
    (b : ℕ) (chunk bytes payload rest : List ℕ) (c : TcpChannel)
    → IsReceiving bytes c
    → length bytes + length (b ∷ chunk) ≤ max_packet_size
    → split_frame (bytes ++ b ∷ chunk) ≡ some (payload, rest)
    → (c' : TcpChannel) × (receive_chunk (λ size. got (b ∷ chunk)) c ≡ ok c')
      × IsReceiving rest c'
      × Received payload c c'
last_piece b chunk bytes payload rest c v fits e =
    let (c', run, took, fresh, kept) =
      receive_chunk_lem bytes chunk b (λ size. got (b ∷ chunk)) c v.is_open v.waiting v.fresh
        v.packets refl fits in
    let (p, shown, base, waiting) = subst (Took c c' (bytes ++ b ∷ chunk)) e took in
    (
      c',
      run,
      record {
        is_open = ap is_closed base ∙ is_closed-notify p c.base ∙ v.is_open;
        waiting = waiting;
        fresh = fresh;
        packets = omega (arith, v.packets);
      },
      (p, shown, base),
    )

room :
    (payload bytes : List ℕ) (b : ℕ) (chunk rest : List ℕ)
    → length payload + 4 ≤ max_packet_size
    → bytes ++ (b ∷ chunk ++ rest) ≡ frame payload
    → length bytes + length (b ∷ chunk) ≤ max_packet_size
room payload bytes b chunk rest h e = omega (
  arith,
  length-frame payload,
  ap length e,
  length-append bytes (b ∷ chunk ++ rest),
  length-append chunk rest,
)

pub pieces_lem :
    (payload : List ℕ) (pieces : List Piece) (bytes : List ℕ) (c : TcpChannel)
    → length payload + 4 ≤ max_packet_size
    → IsReceiving bytes c
    → length bytes < length (frame payload)
    → bytes ++ joined pieces ≡ frame payload
    → (c' : TcpChannel) × (receive_pieces pieces c ≡ ok c')
      × IsReceiving [] c'
      × Received payload c c'
unfolding receive_pieces
pieces_lem payload [] bytes c small v h e =
    absurd (omega (arith, ap length e, ap length (append-nil bytes)))
pieces_lem payload ((b, chunk) ∷ []) bytes c small v h e =
    let whole : bytes ++ b ∷ chunk ≡ frame payload =
      ap (λ l. bytes ++ b ∷ l) (sym (append-nil chunk)) ∙ e in
    let (c', run, v', was) =
      last_piece b chunk bytes payload [] c v (room payload bytes b chunk [] small e) (
        ap split_frame (whole ∙ sym (append-nil (frame payload)))
        ∙ split_frame-frame payload [] (omega arith)) in
    (c', rw run refl, v', was)
pieces_lem payload ((b, chunk) ∷ (b', chunk') ∷ pieces) bytes c small v h e =
    let more : List ℕ = joined ((b', chunk') ∷ pieces) in
    let whole : (bytes ++ b ∷ chunk) ++ more ≡ frame payload =
      append_assoc bytes (b ∷ chunk) more ∙ e in
    let (c1, run1, v1, same) =
      after_piece b chunk bytes more c v (room payload bytes b chunk more small e) (
        split_frame-part payload (bytes ++ b ∷ chunk) b' (chunk' ++ joined pieces) (omega arith)
          whole) in
    let shorter : length (bytes ++ b ∷ chunk) < length (frame payload) =
      omega (arith, ap length whole, length-append (bytes ++ b ∷ chunk) more) in
    let (c', run, v', (p, shown, base)) =
      pieces_lem payload ((b', chunk') ∷ pieces) (bytes ++ b ∷ chunk) c1 small v1 shorter whole in
    (c', rw run1 run, v', (p, shown, base ∙ ap (notify_receive p) same))

-- Two whole frames that arrive in one call: only the first is handed to the observer, and the
-- second waits for a byte behind it.
pub receive_chunk-two_frames :
    (first second : List ℕ) (c : TcpChannel)
    → IsReceiving [] c
    → length (frame first ++ frame second) ≤ max_packet_size
    → (c' : TcpChannel) × (receive_chunk (λ size. got (frame first ++ frame second)) c ≡ ok c')
      × IsReceiving (frame second) c'
      × Received first c c'
unfolding frame uint32_bytes
receive_chunk-two_frames first second c v h =
    last_piece (length first % 256) _ [] first (frame second) c v (omega (arith, h)) (
      split_frame-frame first (frame second)
        (omega (arith, length-frame first, length-append (frame first) (frame second))))
