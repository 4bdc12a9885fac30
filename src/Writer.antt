-- ===== src/Writer.antt =====
-- src/l1_transport/writer.h and writer.cpp: values appended to a buffer, byte by byte. The host is
-- little-endian: LITTLE_ENDIAN_FOR counts upwards.
pub mod Append
pub mod Room
pub mod Encoding
pub mod Results
pub mod WireSize
use libremo.Prelude.{
  ℕ, zero, suc, ◌+◌, ◌*◌, ◌%◌, bit_or, bit_and, Bool, true, false, ◌&&◌, ◌||◌, List, [], ◌∷◌, ◌==◌,
  if◌then◌else◌, length, get_elem?, set, Option, none, some,
}
use libremo.Error.{
  Result, ok, fault, error, ◌>>=◌, throw_if, err_pointer_needs_size, err_invalid_value_type,
}
use libremo.Types.{
  TypedValue, BaseId, TypeId, plain, pointer, other, type_null, type_uint8, type_uint16,
  type_uint32, type_uint64, type_int8, type_int16, type_int32, type_int64, type_void, type_any,
  type_bool, type_cstr, type_double, type_error, type_float, type_code, base_code, size_of,
  get_scalar, get_bool, get_cstr, get_ptr, is_ptr_type,
}
use libremo.Buffer.{Buffer, grow, store}
use libremo.Packet.{packet_call, packet_result}

-- The writer, with the buffer that it refers to and the array below that.
pub record Writer : Type 0 where
  pub memory : List ℕ
  pub buffer : Buffer
  pub has_arraysize : Bool
  pub arraysize : ℕ

-- BinaryWriter(Buffer&)
abbrev pub writer : List ℕ → Buffer → Writer
writer memory buffer = record {
  memory = memory;
  buffer = buffer;
  has_arraysize = false;
  arraysize = 0;
}

-- write<uint8_t>
unfoldable pub write_uint8 : ℕ → Writer → Result Writer
write_uint8 x w = do
  (buffer, p) ← grow w.buffer 1
  memory ← store w.memory p x
  ok (record w { buffer = buffer; memory = memory })

-- `!value` of an object representation: the value is zero.
unfoldable pub all_zero : List ℕ → Bool
all_zero [] = true
all_zero (x ∷ xs) = (x == 0) && all_zero xs

-- Of an IEEE format both signed zeros compare equal to zero: the last byte may hold a sign bit.
unfoldable pub float_zero : List ℕ → Bool
float_zero [] = true
float_zero (x ∷ []) = (x == 0) || (x == 0x80)
float_zero (x ∷ y ∷ ys) = (x == 0) && float_zero (y ∷ ys)

unfoldable pub is_zero : BaseId → List ℕ → Bool
unfolding all_zero float_zero
is_zero type_double bytes = float_zero bytes
is_zero type_float bytes = float_zero bytes
is_zero _ bytes = all_zero bytes

-- The first loop of `write_value(const T&)`: `rounds` are left, `i` is the index and `value` the copy.
unfoldable pub wire_loop : BaseId → ℕ → ℕ → List ℕ → ℕ → ℕ
unfolding is_zero
wire_loop b zero i value wire_size = wire_size
wire_loop b (suc rounds) i value wire_size =
    let rest = wire_loop b rounds (i + 1) (set value i 0) (wire_size + 1) in
    if is_zero b value then wire_size else rest

-- The loops `write<uint8_t>(p[i])`, over `rounds` indices from `i` on.
unfoldable pub write_from : ℕ → ℕ → List ℕ → Writer → Result Writer
write_from zero i p w = ok w
write_from (suc rounds) i p w = elim (get_elem? p i) [
  | none ↦ fault
  | some x ↦ do w' ← write_uint8 x w; write_from rounds (i + 1) p w'
]

-- write_value(const T&) for a scalar T with this representation
unfoldable pub write_scalar : BaseId → List ℕ → Writer → Result Writer
unfolding wire_loop write_from
write_scalar b value w = do
  let wire_size = wire_loop b (size_of b) 0 value 0
  w' ← write_uint8 (bit_or (wire_size * 16) (base_code b) % 256) w
  write_from wire_size 0 value w'

write_elements : ℕ → ℕ → List ℕ → Writer → Result Writer
write_elements zero n p w = ok w
write_elements (suc rounds) n p w = do w' ← write_from n 0 p w; write_elements rounds n p w'

-- write_value(T*): `p` are the bytes that the pointer leads to.
unfoldable pub write_ptr : BaseId → List ℕ → Writer → Result Writer
unfolding write_from write_elements
write_ptr b p w = do
  let w1 = if w.has_arraysize then w else record w { arraysize = 1 }
  w2 ← write_uint8 (type_code (pointer b)) w1
  write_elements w2.arraysize (size_of b) p w2

-- write_value(arraysize_t)
unfoldable pub write_arraysize : ℕ → Writer → Result Writer
write_arraysize n w = do
  _ ← throw_if w.has_arraysize err_pointer_needs_size
  ok (record w { arraysize = n; has_arraysize = true })

write_chars : List ℕ → Writer → Result Writer
write_chars [] w = ok w
write_chars (c ∷ cs) w = do w' ← write_uint8 c w; write_chars cs w'

-- write_value(const char*): the characters in front of the NUL.
unfoldable pub write_cstr : List ℕ → Writer → Result Writer
unfolding write_chars
write_cstr chars w = do
  w1 ← write_uint8 (base_code type_cstr) w
  w2 ← write_chars chars w1
  write_uint8 0 w2

-- write_value(bool)
unfoldable pub write_bool : Bool → Writer → Result Writer
write_bool x w = write_uint8 (bit_or (bit_and (if x then 1 else 0) 1 * 16) (base_code type_bool)) w

unfoldable pub write_by_type : TypeId → TypedValue → Writer → Result Writer
write_by_type (plain type_null) v w = write_uint8 (base_code type_null) w
write_by_type (plain type_uint8) v w = do x ← get_scalar type_uint8 v; write_scalar type_uint8 x w
write_by_type (plain type_uint16) v w = do
  x ← get_scalar type_uint16 v
  write_scalar type_uint16 x w
write_by_type (plain type_uint32) v w = do
  x ← get_scalar type_uint32 v
  write_scalar type_uint32 x w
write_by_type (plain type_uint64) v w = do
  x ← get_scalar type_uint64 v
  write_scalar type_uint64 x w
write_by_type (plain type_int8) v w = do x ← get_scalar type_int8 v; write_scalar type_int8 x w
write_by_type (plain type_int16) v w = do x ← get_scalar type_int16 v; write_scalar type_int16 x w
write_by_type (plain type_int32) v w = do x ← get_scalar type_int32 v; write_scalar type_int32 x w
write_by_type (plain type_int64) v w = do x ← get_scalar type_int64 v; write_scalar type_int64 x w
write_by_type (plain type_void) v w = write_uint8 (base_code type_void) w
write_by_type (plain type_any) v w = write_uint8 (base_code type_any) w
write_by_type (plain type_bool) v w = do x ← get_bool v; write_bool x w
write_by_type (plain type_cstr) v w = do x ← get_cstr v; write_cstr x w
write_by_type (plain type_double) v w = do
  x ← get_scalar type_double v
  write_scalar type_double x w
write_by_type (plain type_float) v w = do x ← get_scalar type_float v; write_scalar type_float x w
write_by_type (pointer type_uint8) v w = do x ← get_ptr type_uint8 v; write_ptr type_uint8 x w
write_by_type (pointer type_uint16) v w = do x ← get_ptr type_uint16 v; write_ptr type_uint16 x w
write_by_type (pointer type_uint32) v w = do x ← get_ptr type_uint32 v; write_ptr type_uint32 x w
write_by_type (pointer type_uint64) v w = do x ← get_ptr type_uint64 v; write_ptr type_uint64 x w
write_by_type (pointer type_int8) v w = do x ← get_ptr type_int8 v; write_ptr type_int8 x w
write_by_type (pointer type_int16) v w = do x ← get_ptr type_int16 v; write_ptr type_int16 x w
write_by_type (pointer type_int32) v w = do x ← get_ptr type_int32 v; write_ptr type_int32 x w
write_by_type (pointer type_int64) v w = do x ← get_ptr type_int64 v; write_ptr type_int64 x w
write_by_type (pointer type_bool) v w = do x ← get_ptr type_bool v; write_ptr type_bool x w
write_by_type (pointer type_double) v w = do x ← get_ptr type_double v; write_ptr type_double x w
write_by_type (pointer type_float) v w = do x ← get_ptr type_float v; write_ptr type_float x w
write_by_type _ v w = error err_invalid_value_type

-- write_value(const TypedValue&)
unfoldable pub write_typed : TypedValue → Writer → Result Writer
unfolding write_by_type
write_typed v w = write_by_type v.type v w

-- An argument of the variadic `call`, by the overload of `write_value` that it selects.
pub data Arg : Type 0 where
  scalar : BaseId → List ℕ → Arg
  flag : Bool → Arg
  string : List ℕ → Arg
  ptr : BaseId → List ℕ → Arg
  arraysize : ℕ → Arg

unfoldable pub write_arg : Arg → Writer → Result Writer
write_arg (scalar b bytes) w = write_scalar b bytes w
write_arg (flag x) w = write_bool x w
write_arg (string chars) w = write_cstr chars w
write_arg (ptr b bytes) w = write_ptr b bytes w
write_arg (arraysize n) w = write_arraysize n w

-- REMO_FOREACH_ARG: a braced list, so from left to right.
unfoldable pub write_args : List Arg → Writer → Result Writer
write_args [] w = ok w
write_args (a ∷ rest) w = do w' ← write_arg a w; write_args rest w'

unfoldable pub write_call : List ℕ → List Arg → Writer → Result Writer
unfolding write_arg write_args
write_call function args w = do
  w1 ← write_uint8 packet_call w
  w2 ← write_cstr function w1
  write_args args w2

unfoldable pub write_outparams : List TypedValue → Writer → Result Writer
write_outparams [] w = ok w
write_outparams (arg ∷ args) w =
    if is_ptr_type arg.type
    then (do w' ← write_typed arg w; write_outparams args w')
    else write_outparams args w

unfoldable pub write_result : TypedValue → List TypedValue → Writer → Result Writer
unfolding write_outparams
write_result result args w = do
  w1 ← write_uint8 packet_result w
  w2 ← write_typed result w1
  write_outparams args w2
