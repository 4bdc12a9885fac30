-- ===== src/Dump.antt =====
-- src/l1_transport/reader.cpp, `to_string` and the format functions, `Buffer::to_hex` of buffer.cpp and
-- `Packet::to_string` of packet.cpp: the text by which a packet is logged.
pub mod Calls
pub mod Packets
pub mod Ending
use libremo.Prelude.{
  ℕ, zero, suc, ◌+◌, ◌-◌, ◌*◌, ◌^◌, ltb, Bool, true, false, not, List, [], ◌∷◌, ◌++◌, ◌==◌,
  if◌then◌else◌, length, codes, decimal,
}
use libremo.Error.{Result, ok, timeout}
use libremo.Types.{
  BaseId, TypeId, plain, pointer, type_null, type_uint8, type_uint16, type_uint32, type_uint64,
  type_int8, type_int16, type_int32, type_int64, type_void, type_any, type_bool, type_cstr,
  type_double, type_error, type_float, type_code, not_same, get_type_name,
}
use libremo.Endianness.{unsigned_of}
use libremo.Buffer.{contents}
use libremo.Packet.{Packet, packet_call, packet_result}
use libremo.Reader.{
  Reader, Read, ◌>>=◌, and_then, pure, reader, read_uint8, read_type, read_value, read_cstr,
  has_more,
}

-- A number of a signed type, in decimal.
unfoldable pub signed_text : List ℕ → List ℕ
unfolding unsigned_of
signed_text bytes =
    let n = unsigned_of bytes in
    let bits = 8 * length bytes in
    if ltb n (2 ^ (bits - 1)) then decimal n else b'-' ∷ decimal (2 ^ bits - n)

unfoldable pub any_set : List ℕ → Bool
any_set [] = false
any_set (x ∷ xs) = if x == 0 then any_set xs else true

-- A character in a field of width two that is filled with '0'.
abbrev pub padded : ℕ → List ℕ
padded c = b'0' ∷ c ∷ []

-- The rest of `Buffer::to_hex`, behind its first byte. A byte is inserted into the stream as a
-- character, which no flag for numbers changes.
unfoldable pub hex_rest : List ℕ → List ℕ
hex_rest [] = []
hex_rest (x ∷ xs) = b' ' ∷ (padded x ++ hex_rest xs)

-- Buffer::to_hex
unfoldable pub to_hex : List ℕ → List ℕ
unfolding hex_rest
to_hex [] = []
to_hex (x ∷ xs) = padded x ++ hex_rest xs

-- `'(' << get_type_name(type) << ')'`
unfoldable pub type_label : TypeId → List ℕ
type_label t = b'(' ∷ (codes (get_type_name t) ++ (b')' ∷ []))

unfoldable pub bool_text : Bool → List ℕ
bool_text x = if x then codes "true" else codes "false"

-- How the standard library prints a float or double is an argument.
module _ (float_text : BaseId → List ℕ → List ℕ) where
  -- `ss << value` for a value of the scalar type; those of one byte are characters.
  unfoldable pub value_text : BaseId → List ℕ → List ℕ
  value_text type_uint8 bytes = bytes
  value_text type_int8 bytes = bytes
  value_text type_uint16 bytes = decimal (unsigned_of bytes)
  value_text type_uint32 bytes = decimal (unsigned_of bytes)
  value_text type_uint64 bytes = decimal (unsigned_of bytes)
  value_text type_int16 bytes = signed_text bytes
  value_text type_int32 bytes = signed_text bytes
  value_text type_int64 bytes = signed_text bytes
  value_text type_double bytes = float_text type_double bytes
  value_text type_float bytes = float_text type_float bytes
  value_text _ bytes = []

  -- A case of the switch that reads a value of the type `b`.
  unfoldable pub format_scalar : TypeId → BaseId → ℕ → Read (List ℕ)
  unfolding value_text
  format_scalar t b modifier = do
    bytes ← read_value b modifier
    pure (type_label t ++ value_text b bytes)

  -- One of the cases for strings.
  unfoldable pub format_cstr : Read (List ℕ)
  format_cstr = do chars ← read_cstr; pure (b'"' ∷ (chars ++ (b'"' ∷ [])))

  -- A value of the enum has the type uint8_t underneath, and is printed as a character.
  unfoldable pub format_by_type : TypeId → ℕ → Read (List ℕ)
  unfolding format_scalar format_cstr
  format_by_type (plain type_null) modifier = pure (type_label (plain type_null))
  format_by_type (plain type_uint8) modifier = format_scalar (plain type_uint8) type_uint8 modifier
  format_by_type (plain type_uint16) modifier =
      format_scalar (plain type_uint16) type_uint16 modifier
  format_by_type (plain type_uint32) modifier =
      format_scalar (plain type_uint32) type_uint32 modifier
  format_by_type (plain type_uint64) modifier =
      format_scalar (plain type_uint64) type_uint64 modifier
  format_by_type (plain type_int8) modifier = format_scalar (plain type_int8) type_int8 modifier
  format_by_type (plain type_int16) modifier = format_scalar (plain type_int16) type_int16 modifier
  format_by_type (plain type_int32) modifier = format_scalar (plain type_int32) type_int32 modifier
  format_by_type (plain type_int64) modifier = format_scalar (plain type_int64) type_int64 modifier
  format_by_type (plain type_void) modifier = pure (type_label (plain type_void))
  format_by_type (plain type_any) modifier = pure (type_label (plain type_any))
  format_by_type (plain type_bool) modifier = pure (bool_text (not (modifier == 0)))
  format_by_type (plain type_cstr) modifier = format_cstr
  format_by_type (plain type_double) modifier =
      format_scalar (plain type_double) type_double modifier
  format_by_type (plain type_error) modifier = pure (type_label (plain type_error))
  format_by_type (plain type_float) modifier = format_scalar (plain type_float) type_float modifier
  format_by_type (pointer type_uint8) modifier =
      format_scalar (pointer type_uint8) type_uint8 modifier
  format_by_type (pointer type_uint16) modifier =
      format_scalar (pointer type_uint16) type_uint16 modifier
  format_by_type (pointer type_uint32) modifier =
      format_scalar (pointer type_uint32) type_uint32 modifier
  format_by_type (pointer type_uint64) modifier =
      format_scalar (pointer type_uint64) type_uint64 modifier
  format_by_type (pointer type_int8) modifier = format_scalar (pointer type_int8) type_int8 modifier
  format_by_type (pointer type_int16) modifier =
      format_scalar (pointer type_int16) type_int16 modifier
  format_by_type (pointer type_int32) modifier =
      format_scalar (pointer type_int32) type_int32 modifier
  format_by_type (pointer type_int64) modifier =
      format_scalar (pointer type_int64) type_int64 modifier
  format_by_type (pointer type_void) modifier = pure (type_label (pointer type_void))
  format_by_type (pointer type_any) modifier = pure (type_label (pointer type_any))
  format_by_type (pointer type_bool) modifier = do
    bytes ← read_value type_int64 modifier
    pure (type_label (pointer type_bool) ++ bool_text (any_set bytes))
  format_by_type (pointer type_cstr) modifier = format_cstr
  format_by_type (pointer type_double) modifier =
      format_scalar (pointer type_double) type_double modifier
  format_by_type (pointer type_error) modifier = pure (type_label (pointer type_error))
  format_by_type (pointer type_float) modifier =
      format_scalar (pointer type_float) type_float modifier
  format_by_type t modifier = pure (codes "(0x" ++ (padded (type_code t) ++ (b')' ∷ [])))

  unfoldable pub format_value : Read (List ℕ)
  unfolding format_by_type
  format_value = do (type, modifier) ← read_type; format_by_type type modifier

  -- The comma behind a value, if another one follows.
  abbrev pub comma : Reader → List ℕ
  comma r = if has_more r then codes ", " else []

  -- `while (has_more())` of `format_call` and `format_result`. A value takes a byte at least.
  unfoldable pub format_values : ℕ → Read (List ℕ)
  unfolding format_value
  format_values zero = λ r. timeout
  format_values (suc fuel) = λ r. elim (has_more r) [
    | false ↦ ok ([], r)
    | true ↦
        and_then (format_value r)
          (λ v r1. and_then (format_values fuel r1) (λ rest. pure (v ++ (comma r1 ++ rest))))
  ]

  unfoldable pub function_text : TypeId → Read (List ℕ)
  function_text t = if not_same t (plain type_cstr) then pure (codes "???") else read_cstr

  unfoldable pub format_call : Read (List ℕ)
  unfolding format_values function_text
  format_call = do
    (type, _) ← read_type
    function ← function_text type
    args ← λ r. format_values (suc r.buffer.size) r
    pure (function ++ (b'(' ∷ (args ++ (b')' ∷ []))))

  unfoldable pub format_result : Read (List ℕ)
  unfolding format_values format_value
  format_result = do
    result ← format_value
    outs ← λ r. format_values (suc r.buffer.size) r
    pure (result ++ (codes " (" ++ (outs ++ (b')' ∷ []))))

  -- The rest of the text, by the type of the packet.
  unfoldable pub format_packet : ℕ → Read (List ℕ)
  unfolding format_call format_result to_hex
  format_packet packet_type =
      if packet_type == packet_call
      then (do text ← format_call; pure (codes "call: " ++ text))
      else if packet_type == packet_result
      then (do text ← format_result; pure (codes "result: " ++ text))
      else λ r. ok (
        codes "unknown packet of size "
            ++ (decimal r.buffer.size
                ++ (codes ": " ++ (b'[' ∷ (to_hex (contents r.memory r.buffer) ++ (b']' ∷ []))))),
        r,
      )

  -- BinaryReader::to_string
  unfoldable pub to_string : Read (List ℕ)
  unfolding format_packet
  to_string r =
      if ltb 0 r.buffer.size
      then (read_uint8 >>= format_packet) r
      else ok (codes "(empty packet)", r)

  -- Packet::to_string
  unfoldable pub packet_text : Packet → Result (List ℕ × Reader)
  unfolding to_string
  packet_text p = to_string (reader p.memory p.payload)
