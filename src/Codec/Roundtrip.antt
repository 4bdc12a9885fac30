-- ===== src/Codec/Roundtrip.antt =====
-- Round trips through the payload of a fresh packet, and what happens where it is too small.
use libremo.Prelude.{
  ℕ, ◌-◌, ◌≤◌, ◌<◌, ◌≡◌, ◌≢◌, refl, sym, ap, subst, append-nil, ◌∙◌, List, [], ◌∷◌, ◌++◌, All, map,
  arith, length, drop, take,
}
use libremo.Error.{ok, error, err_packet_full}
use libremo.Packet.{Packet, max_packet_size}
use libremo.Packet.Layout.{IsFresh}
use libremo.Writer.{Writer, Arg, scalar, flag, string, ptr, arraysize, write_call, write_result}
use libremo.Writer.Room.{IsSink, Appended, Emits-fits, Emits-full}
use libremo.Writer.Encoding.{IsArg, encode_call, write_call-Emits}
use libremo.Writer.Results.{
  Value, null, void, arg, IsValue, typed_of, typed_of_arg, encode_result, write_result-Emits,
}
use libremo.Reader.{Reader, read_call, read_result}
use libremo.Reader.Reads.{Ahead}
use libremo.Reader.Decoding.{IsPortable, IsPortableValue}
use libremo.Reader.Packets.{read_call_lem, read_result-Reads, updated_args, SameShapes}
use libremo.Codec.{payload_writer, payload_reader, written}

pub payload-IsSink : (c : ℕ) (p : Packet) → IsFresh c p → IsSink (payload_writer p)
payload-IsSink c p f = record {
  side = f.writable.readable.payload_right;
  size_le = f.writable.readable.payload_full;
  inside = omega (arith, f.writable.room, f.writable.readable.memory_size);
  small = omega (arith, f.writable.readable.memory_size);
}

-- What was appended to an empty payload lies ahead of a reader of it.
pub Appended-Ahead :
    (c : ℕ) (p : Packet) (bytes : List ℕ) (w : Writer)
    → IsFresh c p
    → Appended bytes (payload_writer p) w
    → Ahead (payload_reader (written p w)) bytes
Appended-Ahead c p bytes w f a = record {
  rest = a.shown ∙ ap (λ n. take n (drop p.payload.start p.memory) ++ bytes) f.payload_empty;
  held = omega (arith, a.size, f.payload_empty);
  small = omega (arith, a.sink.size_le, a.capacity, f.payload_capacity);
}

portable-IsArg : (a : Arg) → IsPortable a → IsArg a
portable-IsArg (scalar b bytes) v = (v.0, v.1)
portable-IsArg (flag x) v = tt
portable-IsArg (string cs) v = tt
portable-IsArg (ptr b bytes) v = v
portable-IsArg (arraysize n) v = absurd v

pub portable-IsArgs : (args : List Arg) → All IsPortable args → All IsArg args
portable-IsArgs [] v = tt
portable-IsArgs (a ∷ rest) v = (portable-IsArg a v.0, portable-IsArgs rest v.1)

pub portable-IsValue : (v : Value) → IsPortableValue v → IsValue v
portable-IsValue null h = tt
portable-IsValue void h = tt
portable-IsValue (arg a) h = portable-IsArg a h

-- A call of portable arguments that fits into the payload of a fresh packet is written, and
-- reading the payload gives the function's name and the arguments as typed values, in order.
pub read_call-write_call :
    (c : ℕ) (p : Packet) (function : List ℕ) (args : List Arg)
    → IsFresh c p
    → All (λ x. x ≢ 0) function
    → All IsPortable args
    → length (encode_call function args) ≤ max_packet_size - c
    → (w : Writer) × (r : Reader) × (write_call function args (payload_writer p) ≡ ok w)
      × (read_call (payload_reader (written p w)) ≡ ok ((function, map typed_of_arg args), r))
read_call-write_call c p function args f hf ha room =
    let (w, ew, a) =
      Emits-fits (write_call function args) (encode_call function args)
        (write_call-Emits function args (portable-IsArgs args ha)) (payload_writer p)
        (payload-IsSink c p f) refl (omega (arith, f.payload_empty, f.payload_capacity)) in
    let (r, er, _) = read_call_lem function args _ hf ha (Appended-Ahead c p _ w f a) in
    (w, r, ew, er)

-- A call that does not fit into the payload of a fresh packet throws ERR_PACKET_FULL.
pub write_call-full :
    (c : ℕ) (p : Packet) (function : List ℕ) (args : List Arg)
    → IsFresh c p
    → All IsArg args
    → max_packet_size - c < length (encode_call function args)
    → write_call function args (payload_writer p) ≡ error err_packet_full
write_call-full c p function args f ha full =
    Emits-full (write_call function args) (encode_call function args)
      (write_call-Emits function args ha) (payload_writer p) (payload-IsSink c p f) refl
      (omega (arith, f.payload_empty, f.payload_capacity))

-- A result and the arguments that the callee left, written to a fresh packet where they fit, are
-- read by the caller as the result and its own arguments with what stands behind the pointers
-- replaced.
pub read_result-write_result :
    (c : ℕ) (p : Packet) (v : Value) (args sent : List Arg)
    → IsFresh c p
    → IsPortableValue v
    → All IsPortable sent
    → SameShapes args sent
    → length (encode_result v sent) ≤ max_packet_size - c
    → (w : Writer) × (r : Reader) × (write_result
          (typed_of v)
          (map typed_of_arg sent)
          (payload_writer p)
        ≡ ok w)
      × (read_result args (payload_reader (written p w))
          ≡ ok ((typed_of v, updated_args args sent), r))
read_result-write_result c p v args sent f hv hs same room =
    let (w, ew, a) =
      Emits-fits (write_result (typed_of v) (map typed_of_arg sent)) (encode_result v sent)
        (write_result-Emits v sent (portable-IsValue v hv) (portable-IsArgs sent hs))
        (payload_writer p) (payload-IsSink c p f) refl
        (omega (arith, f.payload_empty, f.payload_capacity)) in
    let (r, er, _) = read_result-Reads v args sent hv same hs _ [] (
      subst (Ahead _) (sym (append-nil (encode_result v sent)))
        (Appended-Ahead c p (encode_result v sent) w f a)) in
    (w, r, ew, er)
