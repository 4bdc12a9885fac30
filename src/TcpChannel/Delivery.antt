-- ===== src/TcpChannel/Delivery.antt =====
-- Whole packets, one after the other, cross the stream from one channel to another.
use libremo.Prelude.{
  ℕ, ◌+◌, ◌≤◌, ◌≡◌, refl, sym, ap, ◌∙◌, true, List, [], ◌∷◌, ◌++◌, drop, length, append-nil,
  append_assoc, All, arith, map, length-take,
}
use libremo.Error.{Result, ok, error, fault, timeout, ◌>>=◌}
use libremo.Buffer.{contents}
use libremo.Packet.{Packet, max_packet_size}
use libremo.Channel.{received, notify_receive}
use libremo.Socket.{got}
use libremo.TcpChannel.{Turn, TcpChannel, receive_chunk, send_packet}
use libremo.TcpChannel.Frames.{frame}
use libremo.TcpChannel.Send.{IsSendable, Delivers, send_packet_lem}
use libremo.TcpChannel.Pieces.{
  Piece, joined, receive_pieces, length-frame, IsReceiving, heard, heard-append, Received,
  pieces_lem,
}

-- A packet that crosses the stream: its payload and the pieces in which its frame arrives.
pub record Message : Type 0 where
  pub payload : List ℕ
  pub pieces : List Piece

-- The pieces make the frame, which fits into a packet.
abbrev pub IsCut : Message → Type 0
IsCut m = (joined m.pieces ≡ frame m.payload) × (length m.payload + 4 ≤ max_packet_size)

abbrev pub pieces_of : List Message → List Piece
pieces_of [] = []
pieces_of (m ∷ ms) = m.pieces ++ pieces_of ms

receive_pieces-append :
    (xs ys : List Piece) (c : TcpChannel)
    → receive_pieces (xs ++ ys) c ≡ (receive_pieces xs c >>= receive_pieces ys)
unfolding receive_pieces
receive_pieces-append [] ys c = refl
receive_pieces-append ((b, bytes) ∷ xs) ys c =
    each (receive_chunk (λ size. got (b ∷ bytes)) c) (λ c'. receive_pieces-append xs ys c')
  where
    each :
        (r : Result TcpChannel)
        → ((c' : TcpChannel)
            → receive_pieces (xs ++ ys) c' ≡ (receive_pieces xs c' >>= receive_pieces ys))
        → (r >>= λ c'. receive_pieces (xs ++ ys) c')
          ≡ ((r >>= receive_pieces xs) >>= receive_pieces ys)
    each (ok c') go = go c'
    each (error e) go = refl
    each fault go = refl
    each timeout go = refl

heard-Received :
    (payload : List ℕ) (c c' : TcpChannel)
    → c.base.receive_handler ≡ true
    → Received payload c c'
    → (heard c'.base.events ≡ heard c.base.events ++ payload ∷ [])
      × (c'.base.receive_handler ≡ true)
unfolding notify_receive heard
heard-Received payload c c' h (p, shown, base) =
    let told : notify_receive p c.base
        ≡ record c.base { events = c.base.events ++ received p ∷ [] } =
      rw h refl in
    (
      ap (λ b. heard b.events) (base ∙ told)
          ∙ heard-append c.base.events (received p ∷ [])
          ∙ ap (λ l. heard c.base.events ++ l ∷ []) shown,
      ap (λ b. b.receive_handler) (base ∙ told) ∙ h,
    )

-- Packets whose frames fit into a packet and arrive one after the other, each cut into pieces
-- that are not empty, reach the observer of an open channel with two packets to receive into:
-- all of them, in order, and nothing else; no byte is left.
pub receive_pieces_lem :
    (ms : List Message) (c : TcpChannel)
    → All IsCut ms
    → IsReceiving [] c
    → c.base.receive_handler ≡ true
    → (c' : TcpChannel) × (receive_pieces (pieces_of ms) c ≡ ok c')
      × IsReceiving [] c'
      × (heard c'.base.events ≡ heard c.base.events ++ map (λ m. m.payload) ms)
unfolding receive_pieces
receive_pieces_lem [] c cut v h = (c, refl, v, sym (append-nil (heard c.base.events)))
receive_pieces_lem (m ∷ ms) c ((cut, small), cuts) v h =
    let (c1, run1, v1, was) =
      pieces_lem m.payload m.pieces [] c small v (omega (arith, length-frame m.payload)) cut in
    let (told, h1) = heard-Received m.payload c c1 h was in
    let (c', run, v', all) = receive_pieces_lem ms c1 cuts v1 h1 in
    (
      c',
      receive_pieces-append m.pieces (pieces_of ms) c ∙ rw run1 run,
      v',
      all
          ∙ ap (λ l. l ++ map (λ k. k.payload) ms) told
          ∙ append_assoc (heard c.base.events) (m.payload ∷ []) (map (λ k. k.payload) ms),
    )

-- What a packet is sent as reaches the observer of the channel at the other end: it hears the
-- payload of the packet, once and behind what it heard before, whatever the pieces are in which
-- the bytes arrive, provided that the operating system goes on to take bytes until none is left,
-- and that the channel at the other end is open, has a receive handler and has two packets to
-- receive into, and that no byte of another packet was left there.
pub send_packet-receive_pieces :
    (p : Packet) (turns : List Turn) (pieces : List Piece) (c : TcpChannel)
    → IsSendable p
    → Delivers (length (frame (contents p.memory p.payload))) turns
    → IsReceiving [] c
    → c.base.receive_handler ≡ true
    → joined pieces ≡ frame (contents p.memory p.payload)
    → (q : Packet) × (c' : TcpChannel) × (send_packet turns p ≡ ok (q, joined pieces))
      × (receive_pieces pieces c ≡ ok c')
      × IsReceiving [] c'
      × (heard c'.base.events ≡ heard c.base.events ++ contents p.memory p.payload ∷ [])
send_packet-receive_pieces p turns pieces c v d w h cut =
    let payload : List ℕ = contents p.memory p.payload in
    let small : length payload + 4 ≤ max_packet_size = omega (
      arith,
      length-take p.payload.size (drop p.payload.start p.memory),
      v.header_room,
      v.readable.border,
      v.readable.payload_end,
    ) in
    let (q, sent_all, same) = send_packet_lem p turns v d in
    let (c', run, w', was) =
      pieces_lem payload pieces [] c small w (omega (arith, length-frame payload)) cut in
    (
      q,
      c',
      sent_all ∙ ap (λ bytes. ok (q, bytes)) (sym cut),
      run,
      w',
      (heard-Received payload c c' h was).0,
    )
