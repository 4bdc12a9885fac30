-- ===== src/TcpChannel/Send.antt =====
-- Sending a packet: the header that is put in front of it, and the loop that hands the bytes over.
use libremo.Prelude.{
  ℕ, zero, suc, subst, ◌+◌, ◌-◌, ◌%◌, ◌^◌, ◌≤◌, ◌<◌, ◌≡◌, refl, sym, ap, ◌∙◌, true, false, List, [],
  ◌∷◌, ◌++◌, ◌==◌, take, drop, length, length-append, length-take, length-drop, append-nil,
  append_assoc, drop-length_append, take-append-drop, drop-add, arith, le→leb,
}
use libremo.Error.{ok}
use libremo.Buffer.{contents, grow}
use libremo.Buffer.Bounds.{grow-fits, grown}
use libremo.Packet.{Packet, packet_bytes}
use libremo.Packet.Layout.{IsReadable}
use libremo.Socket.{sent, send_blocked}
use libremo.TcpChannel.{
  Turn, copy_bytes, uint32_bytes, prepare_to_send, send_loop, do_send, send_packet,
}
use libremo.TcpChannel.Frames.{frame}

-- What the operating system does at one turn: it takes that many bytes, or has the channel wait until
-- the socket is ready.
pub data Does (size : ℕ) : Turn → ℕ → Type 0 where
  takes : (turn : Turn) (n : ℕ) → 0 < n → n ≤ size → turn.sending size ≡ sent n → Does size turn n
  waits : (turn : Turn) → turn.sending size ≡ send_blocked → turn.polling ≡ true → Does size turn 0

-- The turns by which the last byte is taken.
pub data Delivers : ℕ → List Turn → Type 0 where
  done : (turns : List Turn) → Delivers 0 turns
  next :
      (size n : ℕ) (turn : Turn) (turns : List Turn)
      → Does (suc size) turn n
      → Delivers (suc size - n) turns
      → Delivers (suc size) (turn ∷ turns)

split_wire : (n : ℕ) (wire bytes : List ℕ) → (wire ++ take n bytes) ++ drop n bytes ≡ wire ++ bytes
split_wire n wire bytes =
    append_assoc wire (take n bytes) (drop n bytes) ∙ ap (λ b. wire ++ b) (take-append-drop n bytes)

suc-eq_zero : (k : ℕ) → (suc k == 0) ≡ false
suc-eq_zero k = ground arith

-- One turn of the loop.
send_loop-turn :
    (n : ℕ) (turn : Turn) (turns : List Turn) (b : ℕ) (bytes wire : List ℕ)
    → Does (length (b ∷ bytes)) turn n
    → send_loop (turn ∷ turns) (b ∷ bytes) wire
      ≡ send_loop turns (drop n (b ∷ bytes)) (wire ++ take n (b ∷ bytes))
unfolding send_loop
send_loop-turn n turn turns b bytes wire (takes _ _ pos small e) =
    rw (e, le→leb n (length (b ∷ bytes)) small, suc-eq_zero (length bytes)) refl
send_loop-turn zero turn turns b bytes wire (waits _ e polled) =
    rw
      (
        e,
        polled,
        suc-eq_zero (length bytes),
        append-nil wire,
        le→leb 0 (length (b ∷ bytes)) (omega arith),
      )
      refl

-- One turn of the loop goes on with the bytes that are left.
loop-done : (turns : List Turn) (wire : List ℕ) → send_loop turns [] wire ≡ ok wire
unfolding send_loop
loop-done [] wire = refl
loop-done (turn ∷ turns) wire = refl

loop_all :
    (size : ℕ) (turns : List Turn) (bytes wire : List ℕ)
    → Delivers size turns
    → size ≡ length bytes
    → send_loop turns bytes wire ≡ ok (wire ++ bytes)
loop_all _ turns [] wire (done _) h = loop-done turns wire ∙ ap ok (sym (append-nil wire))
loop_all _ turns (b ∷ bytes) wire (done _) h = absurd (omega arith)
loop_all _ _ [] wire (next size n turn turns does d) h = absurd (omega arith)
loop_all _ _ (b ∷ bytes) wire (next size n turn turns does d) h =
    send_loop-turn n turn turns b bytes wire (subst (λ k. Does k turn n) h does)
    ∙ loop_all (suc size - n) turns (drop n (b ∷ bytes)) (wire ++ take n (b ∷ bytes)) d
        (omega (arith, length-drop n (b ∷ bytes)))
    ∙ ap ok (split_wire n wire (b ∷ bytes))

-- When the operating system goes on to take bytes until none is left, the loop ends, and all of
-- the bytes have gone to the wire, in order, behind those that were there.
pub send_loop_lem :
    (turns : List Turn) (bytes wire : List ℕ)
    → Delivers (length bytes) turns
    → send_loop turns bytes wire ≡ ok (wire ++ bytes)
send_loop_lem turns bytes wire d = loop_all (length bytes) turns bytes wire d refl

-- Bytes put in front of a position of an array.
front_lem :
    (m bytes : List ℕ) (n s : ℕ)
    → length bytes + n ≡ s
    → s ≤ length m
    → (m' : List ℕ) × (copy_bytes m n bytes ≡ ok m')
      × (length m' ≡ length m)
      × (drop n m' ≡ bytes ++ drop s m)
unfolding copy_bytes
front_lem m bytes n s e h =
    let len : length (take n m) ≡ n = omega (arith, length-take n m) in
    let whole = take n m ++ (bytes ++ drop (n + length bytes) m) in
    (
      whole,
      rw (le→leb (n + length bytes) (length m) (omega arith)) refl,
      omega (
        arith,
        length-append (take n m) (bytes ++ drop (n + length bytes) m),
        length-append bytes (drop (n + length bytes) m),
        length-drop (n + length bytes) m,
      ),
      ap (λ k. drop k whole) (sym len)
          ∙ drop-length_append (take n m) (bytes ++ drop (n + length bytes) m)
          ∙ ap (λ k. bytes ++ drop k m) (omega arith),
    )

take_front : (xs ys : List ℕ) (n : ℕ) → take (length xs + n) (xs ++ ys) ≡ xs ++ take n ys
take_front [] ys n = ap (λ k. take k ys) (omega arith)
take_front (x ∷ xs) ys n =
    ap (λ k. take k (x ∷ xs ++ ys)) (shift (length xs)) ∙ ap (λ l. x ∷ l) (take_front xs ys n)
  where
    shift : (k : ℕ) → suc k + n ≡ suc (k + n)
    shift k = omega arith

-- A packet without a header yet, as the writers leave it, with the room that the size of its payload takes.
pub record IsSendable (p : Packet) : Type 0 where
  pub readable : IsReadable p
  pub header_empty : p.header.size ≡ 0
  pub header_room : 4 ≤ p.header.capacity
  pub header_at_payload : p.header.capacity ≡ p.payload.start

-- What is sent is the payload behind its size.
pub prepare_to_send_lem :
    (p : Packet)
    → IsSendable p
    → (q : Packet) × (prepare_to_send p ≡ ok q)
      × (packet_bytes q ≡ frame (contents p.memory p.payload))
      × (contents q.memory q.payload ≡ contents p.memory p.payload)
unfolding prepare_to_send packet_bytes frame
prepare_to_send_lem p v =
    let r = v.readable in
    let header : List ℕ = uint32_bytes (p.payload.size % 2 ^ 32) in
    let at : ℕ = p.header.start - 4 in
    let (m', copied, l, behind) =
      front_lem p.memory header at p.payload.start
        (omega (arith, v.header_empty, v.header_room, v.header_at_payload, r.header_end))
        (omega (arith, r.payload_end, r.memory_size)) in
    let grows : grow p.header 4
        ≡ ok (record p.header { size = p.header.size + 4; start = at }, at) =
      grow-fits p.header 4 (omega (arith, r.border, r.payload_end))
        (omega (arith, v.header_empty, v.header_room))
      ∙ ap (λ s. ok (grown s p.header 4)) r.header_left in
    let shown : p.payload.size ≡ length (contents p.memory p.payload) = omega (
      arith,
      length-take p.payload.size (drop p.payload.start p.memory),
      length-drop p.payload.start p.memory,
      r.memory_size,
      r.payload_end,
    ) in
    (
      record p { header = record p.header { size = p.header.size + 4; start = at }; memory = m' },
      rw (grows, copied) refl,
      ap (λ k. take k (drop at m')) (omega (arith, v.header_empty))
          ∙ ap (λ k. take (4 + p.payload.size) k) behind
          ∙ take_front header (drop p.payload.start p.memory) p.payload.size
          ∙ ap (λ k. uint32_bytes k ++ contents p.memory p.payload)
              (omega (arith, shown, r.payload_end)),
      ap (λ k. take p.payload.size (drop k m'))
            (omega (arith, v.header_empty, v.header_room, v.header_at_payload, r.header_end))
          ∙ ap (take p.payload.size) (drop-add at 4 m' ∙ ap (λ k. drop 4 k) behind),
    )

-- A packet that the writers have filled is sent as the size of its payload and the payload, when the operating
-- system goes on to take bytes until none is left. The payload stays as it was.
pub send_packet_lem :
    (p : Packet) (turns : List Turn)
    → IsSendable p
    → Delivers (length (frame (contents p.memory p.payload))) turns
    → (q : Packet) × (send_packet turns p ≡ ok (q, frame (contents p.memory p.payload)))
      × (contents q.memory q.payload ≡ contents p.memory p.payload)
unfolding send_packet do_send
send_packet_lem p turns v d =
    let (q, e, bytes, same) = prepare_to_send_lem p v in
    (q, rw (e, bytes, send_loop_lem turns (frame (contents p.memory p.payload)) [] d) refl, same)
