-- ===== src/Dump/Packets.antt =====
-- Whole packets in the log: the text of what a writer put into a payload.
use libremo.Prelude.{
  ℕ, zero, suc, ◌-◌, ◌≤◌, ◌<◌, ◌≡◌, ◌≢◌, refl, ap, subst, true, List, [], ◌∷◌, ◌++◌, append-nil,
  arith, length, All, codes, lt→ltb, ltb, map,
}
use libremo.Error.{ok}
use libremo.Types.{BaseId, plain, type_cstr}
use libremo.Packet.{Packet, packet_call, packet_result, max_packet_size}
use libremo.Packet.Layout.{IsFresh}
use libremo.Writer.{Writer, Arg, scalar, flag, string, ptr, arraysize, write_call, write_result}
use libremo.Writer.Room.{Emits-fits}
use libremo.Writer.Encoding.{encode_arg, encode_args, encode_call, write_call-Emits}
use libremo.Writer.Results.{
  Value, typed_of, typed_of_arg, encode_value, encode_outparams, encode_result, write_result-Emits,
}
use libremo.Reader.{Reader}
use libremo.Reader.Reads.{Ahead, Reads-uint8, Reads-cstr, has_more-nil}
use libremo.Reader.Decoding.{IsPortable, IsPortableValue, header-plain}
use libremo.Reader.Packets.{head_type, has_more-arg, length-encode_args, same-not}
use libremo.Codec.{payload_writer, written}
use libremo.Codec.Roundtrip.{payload-IsSink, Appended-Ahead, portable-IsArgs, portable-IsValue}
use libremo.Dump.{
  format_values, format_call, format_result, format_packet, to_string, function_text, packet_text,
}
use libremo.Dump.Calls.{arg_text, args_text, typed_text, Reads-arg_text, Reads-typed_text}

-- The arguments that are sent back.
abbrev pub pointers : List Arg → List Arg
pointers [] = []
pointers (ptr b bytes ∷ rest) = ptr b bytes ∷ pointers rest
pointers (scalar b bytes ∷ rest) = pointers rest
pointers (flag x ∷ rest) = pointers rest
pointers (string chars ∷ rest) = pointers rest
pointers (arraysize n ∷ rest) = pointers rest

encode_outparams-pointers : (args : List Arg) → encode_outparams args ≡ encode_args (pointers args)
unfolding encode_outparams encode_args
encode_outparams-pointers [] = refl
encode_outparams-pointers (ptr b bytes ∷ rest) =
    ap (λ xs. encode_arg (ptr b bytes) ++ xs) (encode_outparams-pointers rest)
encode_outparams-pointers (scalar b bytes ∷ rest) = encode_outparams-pointers rest
encode_outparams-pointers (flag x ∷ rest) = encode_outparams-pointers rest
encode_outparams-pointers (string chars ∷ rest) = encode_outparams-pointers rest
encode_outparams-pointers (arraysize n ∷ rest) = encode_outparams-pointers rest

IsPortable-pointers : (args : List Arg) → All IsPortable args → All IsPortable (pointers args)
IsPortable-pointers [] h = tt
IsPortable-pointers (ptr b bytes ∷ rest) (h, hs) = (h, IsPortable-pointers rest hs)
IsPortable-pointers (scalar b bytes ∷ rest) (h, hs) = IsPortable-pointers rest hs
IsPortable-pointers (flag x ∷ rest) (h, hs) = IsPortable-pointers rest hs
IsPortable-pointers (string chars ∷ rest) (h, hs) = IsPortable-pointers rest hs
IsPortable-pointers (arraysize n ∷ rest) (h, hs) = absurd h

Ahead-nonempty : (r : Reader) (x : ℕ) (xs : List ℕ) → Ahead r (x ∷ xs) → ltb 0 r.buffer.size ≡ true
Ahead-nonempty r x xs h = lt→ltb 0 r.buffer.size (omega (arith, h.held))

module _ (float_text : BaseId → List ℕ → List ℕ) where
  -- The loop over the values ends with the buffer.
  format_values_lem :
      (args : List Arg) (fuel : ℕ) (r : Reader)
      → All IsPortable args
      → length args < fuel
      → Ahead r (encode_args args)
      → (r' : Reader) × (format_values float_text fuel r ≡ ok (args_text float_text args, r'))
  unfolding format_values encode_args
  format_values_lem args zero r v l h = absurd (omega arith)
  format_values_lem [] (suc fuel) r v l h = (r, rw (has_more-nil r h, format_values) refl)
  format_values_lem (a ∷ []) (suc fuel) r v l h =
      let (r1, e1, h1) = Reads-arg_text float_text a v.0 r [] h in
      let (r2, e2) = format_values_lem [] fuel r1 tt (omega arith) h1 in
      (
        r2,
        rw (has_more-arg a [] r v.0 h, format_values, e1, has_more-nil r1 h1, e2)
            (ap (λ t. ok (t, r2)) (append-nil (arg_text float_text a))),
      )
  format_values_lem (a ∷ b ∷ rest) (suc fuel) r v l h =
      let tail = encode_args (b ∷ rest) in
      let (r1, e1, h1) = Reads-arg_text float_text a v.0 r tail h in
      let (r2, e2) = format_values_lem (b ∷ rest) fuel r1 v.1 (omega arith) h1 in
      (
        r2,
        rw
            (
              has_more-arg a tail r v.0 h,
              format_values,
              e1,
              has_more-arg b (encode_args rest) r1 v.1.0 h1,
              e2,
            )
            refl,
      )

  -- The text of a call, by its parts.
  abbrev pub call_text : List ℕ → List Arg → List ℕ
  call_text function args =
      codes "call: " ++ (function ++ (b'(' ∷ (args_text float_text args ++ (b')' ∷ []))))

  abbrev pub result_text : Value → List Arg → List ℕ
  result_text v args =
      codes "result: "
      ++ (typed_text float_text v
          ++ (codes " (" ++ (args_text float_text (pointers args) ++ (b')' ∷ []))))

  call-Ahead :
      (function : List ℕ) (args : List Arg) (r : Reader)
      → All (λ c. c ≢ 0) function
      → All IsPortable args
      → Ahead r (encode_call function args)
      → (r' : Reader) × (to_string float_text r ≡ ok (call_text function args, r'))
  unfolding to_string format_packet format_call function_text encode_call encode_arg
  call-Ahead function args r hf ha h =
      let name : List ℕ = function ++ (0 ∷ []) in
      let (r1, e1, h1) = Reads-uint8 packet_call r (0x0C ∷ (name ++ encode_args args)) h in
      let (r2, e2, h2) =
        head_type 0x0C 0 (plain type_cstr) (header-plain type_cstr 0 (omega arith)) r1
          (name ++ encode_args args) h1 in
      let (r3, e3, h3) = Reads-cstr function hf r2 (encode_args args) h2 in
      let fits : length args < suc r3.buffer.size =
        omega (arith, h3.held, length-encode_args args ha) in
      let (r4, e4) = format_values_lem args (suc r3.buffer.size) r3 ha fits h3 in
      (r4, rw (Ahead-nonempty r packet_call _ h, e1, e2, same-not (plain type_cstr), e3, e4) refl)

  result-Ahead :
      (v : Value) (args : List Arg) (r : Reader)
      → IsPortableValue v
      → All IsPortable args
      → Ahead r (encode_result v args)
      → (r' : Reader) × (to_string float_text r ≡ ok (result_text v args, r'))
  unfolding to_string format_packet format_result encode_result
  result-Ahead v args r hv ha h =
      let (r1, e1, h1) = Reads-uint8 packet_result r (encode_value v ++ encode_outparams args) h in
      let (r2, e2, h2) = Reads-typed_text float_text v hv r1 (encode_outparams args) h1 in
      let h3 : Ahead r2 (encode_args (pointers args)) =
        subst (Ahead r2) (encode_outparams-pointers args) h2 in
      let sent = IsPortable-pointers args ha in
      let fits : length (pointers args) < suc r2.buffer.size =
        omega (arith, h3.held, length-encode_args (pointers args) sent) in
      let (r4, e4) = format_values_lem (pointers args) (suc r2.buffer.size) r2 sent fits h3 in
      (r4, rw (Ahead-nonempty r packet_result _ h, e1, e2, e4) refl)

  -- The log shows a call of portable arguments, written to a fresh packet where it fits, as the
  -- name and the arguments, with the types of numbers and pointers, in order.
  pub packet_text-write_call :
      (c : ℕ) (p : Packet) (function : List ℕ) (args : List Arg)
      → IsFresh c p
      → All (λ x. x ≢ 0) function
      → All IsPortable args
      → length (encode_call function args) ≤ max_packet_size - c
      → (w : Writer) × (r : Reader) × (write_call function args (payload_writer p) ≡ ok w)
        × (packet_text float_text (written p w) ≡ ok (call_text function args, r))
  unfolding packet_text
  packet_text-write_call c p function args f hf ha room =
      let (w, ew, a) =
        Emits-fits (write_call function args) (encode_call function args)
          (write_call-Emits function args (portable-IsArgs args ha)) (payload_writer p)
          (payload-IsSink c p f) refl (omega (arith, f.payload_empty, f.payload_capacity)) in
      let (r, er) = call-Ahead function args _ hf ha (Appended-Ahead c p _ w f a) in (w, r, ew, er)

  -- The log shows a result, written to a fresh packet where it fits, as the value and the
  -- out-parameters.
  pub packet_text-write_result :
      (c : ℕ) (p : Packet) (v : Value) (args : List Arg)
      → IsFresh c p
      → IsPortableValue v
      → All IsPortable args
      → length (encode_result v args) ≤ max_packet_size - c
      → (w : Writer) × (r : Reader) × (write_result
            (typed_of v)
            (map typed_of_arg args)
            (payload_writer p)
          ≡ ok w)
        × (packet_text float_text (written p w) ≡ ok (result_text v args, r))
  unfolding packet_text
  packet_text-write_result c p v args f hv ha room =
      let (w, ew, a) =
        Emits-fits (write_result (typed_of v) (map typed_of_arg args)) (encode_result v args)
          (write_result-Emits v args (portable-IsValue v hv) (portable-IsArgs args ha))
          (payload_writer p) (payload-IsSink c p f) refl
          (omega (arith, f.payload_empty, f.payload_capacity)) in
      let (r, er) = result-Ahead v args _ hv ha (Appended-Ahead c p _ w f a) in (w, r, ew, er)
