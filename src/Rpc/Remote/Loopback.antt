-- ===== src/Rpc/Remote/Loopback.antt =====
-- A call through the loopback, from the arguments of the caller to its result.
use libremo.Prelude.{
  ℕ, suc, ◌≤◌, ◌≡◌, ◌≢◌, refl, sym, subst, ◌∙◌, true, false, List, [], ◌∷◌, ◌==◌, map, All, arith,
  length, some, none, append-nil,
}
use libremo.Error.{ok}
use libremo.Types.{TypedValue}
use libremo.Packet.{Packet, get_size, packet_call, packet_result}
use libremo.Packet.Layout.{IsReadable, IsFresh, at_border, at_border-IsFresh}
use libremo.Writer.{Writer, Arg, write_call, write_result}
use libremo.Writer.Room.{Appended, Emits-fits}
use libremo.Writer.Encoding.{encode_call, write_call-Emits}
use libremo.Writer.Results.{Value, typed_of, typed_of_arg, encode_result, write_result-Emits}
use libremo.Reader.{Reader, read_uint8, read_call, read_result}
use libremo.Reader.Reads.{Ahead, Reads-uint8}
use libremo.Codec.{payload_writer, payload_reader, written}
use libremo.Codec.Roundtrip.{Appended-Ahead, payload-IsSink, portable-IsArgs, portable-IsValue}
use libremo.Reader.Decoding.{IsPortable, IsPortableValue}
use libremo.Reader.Packets.{updated_args, SameShapes, read_result-Reads, read_call_lem}
use libremo.Rpc.Registry.{Local}
use libremo.Rpc.Registry
use libremo.Rpc.Pool.{Pool, recycle}
use libremo.Rpc.Remote.{
  Owned, returns, release, give_back, handle_packet, handle_call, take_packet, remote_call,
  read_reply, pass_on,
}

-- A packet that was written to: it can be read, and its first byte is the type of the message.
record IsMessage (type : ℕ) (p : Packet) : Type 0 where
  readable : IsReadable p
  nonempty : (get_size p == 0) ≡ false
  typed : (r : Reader) × (read_uint8 (payload_reader p) ≡ ok (type, r))

written-IsReadable :
    (c : ℕ) (p : Packet) (bytes : List ℕ) (w : Writer)
    → IsFresh c p
    → Appended bytes (payload_writer p) w
    → IsReadable (written p w)
written-IsReadable c p bytes w f a =
    let v = f.writable.readable in
    let cap = v.payload_cap in
    let full = v.payload_full in
    record {
      memory_size = a.array ∙ v.memory_size;
      header_left = v.header_left;
      payload_right = a.sink.side;
      header_end = v.header_end;
      border = omega (arith, a.start, v.border);
      payload_end = omega (arith, a.sink.size_le, a.sink.inside, a.array, v.memory_size);
      payload_full = a.sink.size_le;
      payload_cap = omega (arith, a.capacity, cap);
    }

written-IsMessage :
    (c type : ℕ) (p : Packet) (bytes : List ℕ) (w : Writer)
    → IsFresh c p
    → Appended (type ∷ bytes) (payload_writer p) w
    → IsMessage type (written p w)
unfolding get_size
written-IsMessage c type p bytes w f a =
    let (r, e, _) =
      Reads-uint8 type (payload_reader (written p w)) bytes
        (Appended-Ahead c p (type ∷ bytes) w f a) in
    record {
      readable = written-IsReadable c p (type ∷ bytes) w f a;
      nonempty = ground (arith, a.size);
      typed = (r, e);
    }

pub emptied : Owned → Owned
emptied x = record { object = at_border x.object 128; pooled = false }

pub give_back-eq :
    (x : Owned) (pool : Pool Packet) → x.pooled ≡ true → give_back x pool ≡ ok (emptied x ∷ pool)
unfolding give_back recycle emptied
give_back-eq x pool h = rw (h, recycle) refl

pub emptied-IsFresh : (x : Owned) → IsReadable x.object → IsFresh 128 (emptied x).object
unfolding emptied
emptied-IsFresh x v =
    at_border-IsFresh x.object 128 (omega arith) v.memory_size v.header_left v.payload_right

-- A result that arrives is kept for the caller.
result-handled :
    (depth : ℕ) (local : Local) (x : Owned) (pool : Pool Packet)
    → IsMessage packet_result x.object
    → handle_packet (suc depth) local x (record { packet_pool = pool; received_result = none })
      ≡ returns none (record { packet_pool = pool; received_result = some x })
unfolding handle_packet release
result-handled depth local x pool m = let (r, e) = m.typed in rw (m.nonempty, e) refl

-- The rest of a call: the reply is read and given back, then the packet of the call.
reply-read :
    (args : List Arg) (packet reply : Owned) (pool : Pool Packet) (value : TypedValue × List Arg)
    (r : Reader)
    → packet.pooled ≡ true
    → reply.pooled ≡ true
    → read_result args (payload_reader reply.object) ≡ ok (value, r)
    → pass_on packet
        (read_reply args)
        (returns (some packet) (record { packet_pool = pool; received_result = some reply }))
      ≡ returns value
          (record { packet_pool = emptied packet ∷ emptied reply ∷ pool; received_result = none })
unfolding read_reply release
reply-read args packet reply pool value r hp hr e =
    rw (e, give_back-eq reply pool hr, give_back-eq packet (emptied reply ∷ pool) hp) refl

module _ (local : Local) (function : List ℕ) (args sent : List Arg) (v : Value) (y : Owned)
    (rest : Pool Packet) (name : All (λ c. c ≢ 0) function) (portable : All IsPortable args)
    (value : IsPortableValue v) (left : All IsPortable sent) (same : SameShapes args sent)
    (called : Registry.call function (map typed_of_arg args) local
      ≡ ok (typed_of v, map typed_of_arg sent)) where
  -- The callee's side: the call is read and carried out, and the reply is kept for the caller.
  call-handled :
      (depth : ℕ) (x : Owned) (r : Reader)
      → IsMessage packet_call x.object
      → read_call (payload_reader x.object) ≡ ok ((function, map typed_of_arg args), r)
      → IsFresh 128 y.object
      → length (encode_result v sent) ≤ 896
      → (reply : Owned) × (handle_packet
            (suc (suc depth))
            local
            x
            (record { packet_pool = y ∷ rest; received_result = none })
          ≡ returns (some x) (record { packet_pool = rest; received_result = some reply }))
        × IsReadable reply.object
        × (reply.pooled ≡ true)
        × (r' : Reader) × (read_result args (payload_reader reply.object)
            ≡ ok ((typed_of v, updated_args args sent), r'))
  unfolding handle_packet handle_call take_packet encode_result
  call-handled depth x r m e fresh room =
      let (_, typed) = m.typed in
      let (w, ew, a) =
        Emits-fits (write_result (typed_of v) (map typed_of_arg sent)) (encode_result v sent)
          (write_result-Emits v sent (portable-IsValue v value) (portable-IsArgs sent left))
          (payload_writer y.object) (payload-IsSink 128 y.object fresh) refl
          (omega (arith, fresh.payload_empty, fresh.payload_capacity)) in
      let (r', er, _) = read_result-Reads v args sent value same left _ [] (
        subst (Ahead _) (sym (append-nil (encode_result v sent)))
          (Appended-Ahead 128 y.object (encode_result v sent) w fresh a)) in
      let reply : Owned = record { object = written y.object w; pooled = true } in
      let message : IsMessage packet_result reply.object =
        written-IsMessage 128 packet_result y.object _ w fresh a in
      (
        reply,
        rw (m.nonempty, typed, e, called, ew, result-handled depth local reply rest message) refl,
        message.readable,
        refl,
        r',
        er,
      )

  -- A call of portable arguments on an endpoint with two packets in its pool and no result
  -- pending, where the local endpoint carries the call out and both messages fit into their
  -- packets, returns the function's result and the caller's arguments with what stands behind the
  -- pointers replaced, and gives both packets back empty; a depth of two is enough.
  pub remote_call_lem :
      (depth : ℕ) (x : Owned)
      → IsFresh 128 x.object
      → IsFresh 128 y.object
      → length (encode_call function args) ≤ 896
      → length (encode_result v sent) ≤ 896
      → (x' y' : Owned) × (remote_call
            (suc (suc depth))
            local
            function
            args
            (record { packet_pool = x ∷ y ∷ rest; received_result = none })
          ≡ returns
              (typed_of v, updated_args args sent)
              (record { packet_pool = x' ∷ y' ∷ rest; received_result = none }))
        × IsFresh 128 x'.object
        × IsFresh 128 y'.object
        × (x'.pooled ≡ false)
        × (y'.pooled ≡ false)
  unfolding remote_call take_packet encode_call emptied
  remote_call_lem depth x fx fy room_x room_y =
      let (w, ew, a) =
        Emits-fits (write_call function args) (encode_call function args)
          (write_call-Emits function args (portable-IsArgs args portable)) (payload_writer x.object)
          (payload-IsSink 128 x.object fx) refl
          (omega (arith, fx.payload_empty, fx.payload_capacity)) in
      let (r, er, _) =
        read_call_lem function args _ name portable (Appended-Ahead 128 x.object _ w fx a) in
      let message : IsMessage packet_call (written x.object w) =
        written-IsMessage 128 packet_call x.object _ w fx a in
      let packet : Owned = record { object = written x.object w; pooled = true } in
      let (reply, handled, ready, owned, r', er') =
        call-handled depth packet r message er fy room_y in
      (
        emptied packet,
        emptied reply,
        rw (ew, handled) (reply-read args packet reply rest _ r' refl owned er'),
        emptied-IsFresh packet message.readable,
        emptied-IsFresh reply ready,
        refl,
        refl,
      )
