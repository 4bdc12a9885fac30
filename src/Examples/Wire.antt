-- ===== src/Examples/Wire.antt =====
-- Buffers, packets, writers and readers at concrete inputs.
use libremo.Prelude.{
  ℕ, ◌≡◌, refl, List, [], ◌∷◌, map, arith, length-replicate, ◌+◌, ◌-◌, get_elem?, some, false,
  subst,
}
use libremo.Error.{ok, fault}
use libremo.Types.{type_uint8, type_uint16, type_int32}
use libremo.Buffer.{Buffer, left, right, grow, store}
use libremo.Endianness.{little, big, uint16, set_le, get_le, set_le_ua, get_le_ua}
use libremo.Endianness.Hosts.{get_le-set_le}
use libremo.Packet.{Packet, blank, drop_header}
use libremo.Packet.Layout.{IsFresh, IsReadable, at_border, at_border-IsFresh, drop_header_overrun}
use libremo.Writer.{Writer, Arg, scalar, string, ptr, write_call, write_result, is_zero}
use libremo.Writer.WireSize.{significant}
use libremo.Writer.Encoding.{encode_call}
use libremo.Writer.Results.{void, typed_of, typed_of_arg, encode_result}
use libremo.Reader.{Reader, read_call, read_result, read_typed_value, header_type, reader}
use libremo.Reader.Safety.{IsSafe}
use libremo.Reader.Hostile.{
  read_typed_value-Advances, Advances, is_oversized, read_typed_value-overrun,
}
use libremo.Reader.Packets.{updated_args}
use libremo.Codec.{payload_writer, payload_reader, written}
use libremo.Codec.Roundtrip.{read_call-write_call, read_result-write_result}

abbrev pub fresh : Packet
fresh = at_border blank 128

pub fresh-IsFresh : IsFresh 128 fresh
fresh-IsFresh =
    at_border-IsFresh blank 128 (omega arith) (length-replicate {A = ℕ} 1024 0) refl refl

-- add(261, "hi", &7)
abbrev pub add_name : List ℕ
add_name = 0x61 ∷ 0x64 ∷ 0x64 ∷ []

abbrev pub add_args : List Arg
add_args =
    scalar type_uint16 (5 ∷ 1 ∷ [])
    ∷ string (0x68 ∷ 0x69 ∷ [])
    ∷ ptr type_int32 (7 ∷ 0 ∷ 0 ∷ 0 ∷ [])
    ∷ []

abbrev pub sent_args : List Arg
sent_args =
    scalar type_uint16 (5 ∷ 1 ∷ [])
    ∷ string (0x68 ∷ 0x69 ∷ [])
    ∷ ptr type_int32 (9 ∷ 1 ∷ 0 ∷ 0 ∷ [])
    ∷ []

add_encoding :
    encode_call add_name add_args
    ≡ 0x3E ∷ 0x0C ∷ 0x61 ∷ 0x64 ∷ 0x64 ∷ 0 ∷ 0x22 ∷ 5 ∷ 1 ∷ 0x0C ∷ 0x68 ∷ 0x69 ∷ 0 ∷ 0xA7 ∷ 7 ∷ 0
      ∷ 0 ∷ 0 ∷ []
unfolding encode_call significant is_zero
add_encoding = refl

read_call-write_call_example :
    (w : Writer) × (r : Reader) × (write_call add_name add_args (payload_writer fresh) ≡ ok w)
    × (read_call (payload_reader (written fresh w)) ≡ ok ((add_name, map typed_of_arg add_args), r))
unfolding encode_call significant is_zero
read_call-write_call_example =
    read_call-write_call 128 fresh add_name add_args fresh-IsFresh (omega arith)
      ((refl, refl, refl), ((omega arith, (omega arith, tt)), ((refl, refl), tt))) (omega arith)

read_result-write_result_example :
    (w : Writer) × (r : Reader) × (write_result
        (typed_of void)
        (map typed_of_arg sent_args)
        (payload_writer fresh)
      ≡ ok w)
    × (read_result add_args (payload_reader (written fresh w))
        ≡ ok ((typed_of void, updated_args add_args sent_args), r))
unfolding encode_result significant is_zero
read_result-write_result_example =
    read_result-write_result 128 fresh void add_args sent_args fresh-IsFresh tt
      ((refl, refl, refl), ((omega arith, (omega arith, tt)), ((refl, refl), tt)))
      (tt, (tt, ((refl, refl), tt))) (omega arith)

-- A received packet: the payload has the whole array, and ten bytes of it are filled.
abbrev received : Packet
received = record blank {
  header = record { side = left; start = 0; size = 0; capacity = 0 };
  payload = record { side = right; start = 0; size = 10; capacity = 1024 };
}

received-IsReadable : IsReadable received
received-IsReadable = record {
  memory_size = length-replicate {A = ℕ} 1024 0;
  header_left = refl;
  payload_right = refl;
  header_end = omega arith;
  border = omega arith;
  payload_end = omega arith;
  payload_full = omega arith;
  payload_cap = omega arith;
}

drop_header_overrun_example :
    (q : Packet) × (drop_header received 4 ≡ ok q)
    × (q.payload.capacity ≡ 1024)
    × (b : Buffer) × (at : ℕ) × (grow q.payload (q.payload.capacity - q.payload.size) ≡ ok (b, at))
    × (b.start + b.size ≡ 1024 + 4)
    × (store q.memory (b.start + b.size - 1) 7 ≡ fault)
drop_header_overrun_example =
    drop_header_overrun received 4 7 received-IsReadable (omega arith) (omega arith) (omega arith)

-- Nine bytes announced for a uint8_t.
abbrev hostile : Reader
hostile =
    reader (0x91 ∷ 1 ∷ 2 ∷ 3 ∷ []) (record { side = right; start = 0; size = 4; capacity = 4 })

hostile-IsSafe : IsSafe hostile
hostile-IsSafe = record { inside = omega arith; small = omega arith; within = omega arith }

read_typed_value-overrun_example : read_typed_value hostile ≡ fault
read_typed_value-overrun_example =
    read_typed_value-overrun type_uint8 9 hostile refl (omega arith) (omega arith) hostile-IsSafe
      refl (omega arith)

-- A uint16_t, behind another byte.
abbrev two_bytes : Reader
two_bytes =
    reader (0x22 ∷ 5 ∷ 1 ∷ 7 ∷ []) (record { side = right; start = 0; size = 4; capacity = 4 })

two_bytes-IsSafe : IsSafe two_bytes
two_bytes-IsSafe = record { inside = omega arith; small = omega arith; within = omega arith }

two_bytes-sized :
    (h : ℕ)
    → get_elem? two_bytes.memory (two_bytes.buffer.start + two_bytes.offset) ≡ some h
    → is_oversized (header_type h).0 (header_type h).1 ≡ false
unfolding header_type
two_bytes-sized h e =
    let same : 0x22 ≡ h = cc in
    subst (λ x. is_oversized (header_type x).0 (header_type x).1 ≡ false) same refl

read_typed_value-Advances_example : Advances two_bytes (read_typed_value two_bytes)
read_typed_value-Advances_example =
    read_typed_value-Advances two_bytes two_bytes-IsSafe two_bytes-sized

-- A port number from a big-endian host.
get_le-set_le_example :
    (set_le big uint16 8080 ≡ set_le little uint16 8080)
    × (get_le little uint16 (set_le big uint16 8080) ≡ 8080)
    × (get_le_ua little uint16 (set_le_ua big uint16 8080) ≡ 8080)
get_le-set_le_example = get_le-set_le big little uint16 8080 (omega arith)
