-- ===== src/Reader.antt =====
-- src/l1_transport/reader.h and reader.cpp: values taken from a buffer, byte by byte. The host is
-- little-endian: LITTLE_ENDIAN_FOR counts upwards.
pub mod Reads
pub mod Lossless
pub mod Decoding
pub mod Packets
pub mod Safety
pub mod Hostile
use libremo.Prelude.{
  ℕ, zero, suc, ◌+◌, ◌*◌, ◌/◌, ◌%◌, Bool, true, false, not, List, [], ◌∷◌, ◌==◌, ltb, if◌then◌else◌,
  length, get_elem?, set, take, drop, none, some,
}
use libremo.Error.{
  Result, ok, fault, error, timeout, ErrorCode, throw_if, err_bad_packet, err_func_name_missing,
  err_invalid_array_length, err_param_type_invalid, err_outparam_type_mismatch,
}
use libremo.Types.{
  TypedValue, BaseId, TypeId, plain, pointer, type_null, type_uint8, type_uint16, type_uint32,
  type_uint64, type_int8, type_int16, type_int32, type_int64, type_void, type_bool, type_cstr,
  type_double, type_float, type_of_code, get_type_size, size_of, not_same, typed_value,
  scalar_value, bool_value, cstr_value, ptr_value,
}
use libremo.Buffer.{Buffer, access_read, size_mod, store}
use libremo.Packet.{packet_call, packet_result}
use libremo.Writer.{Arg, ptr}

-- The reader, with the buffer that it refers to and the array below that.
pub record Reader : Type 0 where
  pub memory : List ℕ
  pub buffer : Buffer
  pub offset : ℕ

-- Reader(const Buffer&)
abbrev pub reader : List ℕ → Buffer → Reader
reader memory buffer = record { memory = memory; buffer = buffer; offset = 0 }

-- A member function: it moves the offset, or throws.
abbrev pub Read : Type 0 → Type 0
Read A = Reader → Result (A × Reader)

abbrev pub and_then : {A B : Type 0} → Result (A × Reader) → (A → Read B) → Result (B × Reader)
and_then (ok (a, r)) k = k a r
and_then (error e) k = error e
and_then fault k = fault
and_then timeout k = timeout

infixl 5 ◌>>=◌ ◌>>◌
abbrev pub ◌>>=◌ : {A B : Type 0} → Read A → (A → Read B) → Read B
m >>= k = λ r. and_then (m r) k

abbrev pub ◌>>◌ : {B : Type 0} → Read (Unit {0}) → Read B → Read B
m >> k = m >>= λ _. k

abbrev pub pure : {A : Type 0} → A → Read A
pure a r = ok (a, r)

abbrev pub throw : {A : Type 0} → ErrorCode → Read A
throw e r = error e

abbrev pub give_up : {A : Type 0} → Result A → Read A
give_up (ok a) r = ok (a, r)
give_up (error e) r = error e
give_up fault r = fault
give_up timeout r = timeout

unfoldable pub load : List ℕ → ℕ → Result ℕ
load memory p = elim (get_elem? memory p) [ none ↦ fault | some x ↦ ok x ]

-- read<uint8_t>
unfoldable pub read_uint8 : Read ℕ
unfolding load
read_uint8 = do
  p ← λ r. give_up (access_read r.buffer r.offset 1) r
  _ ← λ r. ok (tt, record r { offset = r.offset + 1 })
  λ r. give_up (load r.memory p) r

unfoldable pub has_more : Reader → Bool
has_more r = ltb r.offset r.buffer.size

unfoldable pub skip_array : ℕ → ℕ → Read (Unit {0})
skip_array arraylength item_size r =
    let total_size = arraylength * item_size % size_mod in
    let moved : Result (Unit {0} × Reader) = ok (tt, record r { offset = r.offset + total_size }) in
    if ltb r.buffer.size ((r.offset + total_size) % size_mod)
    then error err_invalid_array_length
    else moved

-- The type and the modifier of a header byte.
unfoldable pub header_type : ℕ → TypeId × ℕ
unfolding type_of_code get_type_size
header_type h =
    let modifier = h / 16 % 16 in
    if ltb modifier 0xA
    then (type_of_code (h % 16), modifier)
    else (type_of_code h, get_type_size (type_of_code (h % 16)))

unfoldable pub read_type : Read (TypeId × ℕ)
unfolding header_type
read_type = do h ← read_uint8; pure (header_type h)

-- `p[i] = read<uint8_t>()` for `rounds` indices from `i` on; `p` points at the bytes of `value`.
unfoldable pub read_into : ℕ → ℕ → List ℕ → Read (List ℕ)
read_into zero i value = pure value
read_into (suc rounds) i value = do
  x ← read_uint8
  value' ← give_up (store value i x)
  read_into rounds (i + 1) value'

unfoldable pub zeros : ℕ → List ℕ
zeros zero = []
zeros (suc n) = 0 ∷ zeros n

-- read_value<T>
unfoldable pub read_value : BaseId → ℕ → Read (List ℕ)
unfolding read_into zeros
read_value b wire_size = read_into wire_size 0 (zeros (size_of b))

-- read_ptr<T>: the array length is overridden by 1.
unfoldable pub read_ptr : BaseId → Read (List ℕ)
unfolding skip_array
read_ptr b = do
  p ← λ r. give_up (access_read r.buffer r.offset (size_of b)) r
  _ ← skip_array 1 (size_of b)
  λ r. ok (take (size_of b) (drop p r.memory), r)

-- One round of it: the NUL ends the string.
abbrev pub chars_step : Read (List ℕ) → ℕ → Read (List ℕ)
chars_step rest zero = pure []
chars_step rest (suc x) = do cs ← rest; pure (suc x ∷ cs)

-- `while (read<uint8_t>()) {}`, with the characters that it passes.
unfoldable pub read_chars : ℕ → Read (List ℕ)
read_chars zero = λ r. timeout
read_chars (suc fuel) = do x ← read_uint8; chars_step (read_chars fuel) x

-- Each round takes a byte, so one round more than the buffer has bytes is enough.
unfoldable pub read_cstr : Read (List ℕ)
unfolding read_chars
read_cstr = do
  _ ← λ r. give_up (access_read r.buffer r.offset 1) r
  λ r. read_chars (suc r.buffer.size) r

unfoldable pub read_scalar : BaseId → ℕ → Read TypedValue
unfolding read_value
read_scalar b modifier = do bytes ← read_value b modifier; pure (scalar_value b bytes)

unfoldable pub read_pointer : BaseId → Read TypedValue
unfolding read_ptr
read_pointer b = do bytes ← read_ptr b; pure (ptr_value b bytes)

unfoldable pub read_by_type : TypeId → ℕ → Read TypedValue
read_by_type (plain type_null) modifier = pure (typed_value (plain type_null))
read_by_type (plain type_uint8) modifier = read_scalar type_uint8 modifier
read_by_type (plain type_uint16) modifier = read_scalar type_uint16 modifier
read_by_type (plain type_uint32) modifier = read_scalar type_uint32 modifier
read_by_type (plain type_uint64) modifier = read_scalar type_uint64 modifier
read_by_type (plain type_int8) modifier = read_scalar type_int8 modifier
read_by_type (plain type_int16) modifier = read_scalar type_int16 modifier
read_by_type (plain type_int32) modifier = read_scalar type_int32 modifier
read_by_type (plain type_int64) modifier = read_scalar type_int64 modifier
read_by_type (plain type_void) modifier = pure (typed_value (plain type_void))
read_by_type (plain type_bool) modifier = pure (bool_value (not (modifier == 0)))
read_by_type (plain type_cstr) modifier = do chars ← read_cstr; pure (cstr_value chars)
read_by_type (plain type_double) modifier = read_scalar type_double modifier
read_by_type (plain type_float) modifier = read_scalar type_float modifier
read_by_type (pointer type_uint8) modifier = read_pointer type_uint8
read_by_type (pointer type_uint16) modifier = read_pointer type_uint16
read_by_type (pointer type_uint32) modifier = read_pointer type_uint32
read_by_type (pointer type_uint64) modifier = read_pointer type_uint64
read_by_type (pointer type_int8) modifier = read_pointer type_int8
read_by_type (pointer type_int16) modifier = read_pointer type_int16
read_by_type (pointer type_int32) modifier = read_pointer type_int32
read_by_type (pointer type_int64) modifier = read_pointer type_int64
read_by_type (pointer type_bool) modifier = read_pointer type_bool
read_by_type (pointer type_double) modifier = read_pointer type_double
read_by_type (pointer type_float) modifier = read_pointer type_float
read_by_type _ modifier = throw err_param_type_invalid

unfoldable pub read_typed_value : Read TypedValue
unfolding read_by_type
read_typed_value = do (type, modifier) ← read_type; read_by_type type modifier

-- `while (has_more()) m_args.push_back(read_typed_value())`
unfoldable pub read_args : ℕ → Read (List TypedValue)
read_args zero = λ r. timeout
read_args (suc fuel) = λ r. elim (has_more r) [
  | false ↦ ok ([], r)
  | true ↦ and_then (read_typed_value r) (λ v. read_args fuel >>= λ vs. pure (v ∷ vs))
]

-- The function name and the arguments. A typed value takes a byte at least.
unfoldable pub read_call : Read (List ℕ × List TypedValue)
unfolding read_args
read_call = do
  packet_type ← read_uint8
  _ ← give_up (throw_if (not (packet_type == packet_call)) err_bad_packet)
  (type, _) ← read_type
  _ ← give_up (throw_if (not_same type (plain type_cstr)) err_func_name_missing)
  function ← read_cstr
  args ← λ r. read_args (suc r.buffer.size) r
  pure (function, args)

unfoldable pub check_param_type : TypeId → TypeId → Result (Unit {0})
check_param_type actual expected = throw_if (not_same actual expected) err_outparam_type_mismatch

unfoldable pub check_result_packet : ℕ → Result (Unit {0})
check_result_packet packet_type = throw_if (not (packet_type == packet_result)) err_bad_packet

-- read_outparam: what stands behind a pointer argument is overwritten, the others are passed over.
unfoldable pub read_outparam : Arg → Read Arg
unfolding check_param_type read_into
read_outparam (ptr b bytes) = do
  (actual_type, _) ← read_type
  _ ← give_up (check_param_type actual_type (pointer b))
  bytes' ← read_into (size_of b) 0 bytes
  pure (ptr b bytes')
read_outparam a = pure a

unfoldable pub read_outparams : List Arg → Read (List Arg)
unfolding read_outparam
read_outparams [] = pure []
read_outparams (a ∷ rest) = do a' ← read_outparam a; rest' ← read_outparams rest; pure (a' ∷ rest')

-- read_result: the result and the arguments with their out parameters.
unfoldable pub read_result : List Arg → Read (TypedValue × List Arg)
unfolding read_outparams check_result_packet
read_result args = do
  packet_type ← read_uint8
  _ ← give_up (check_result_packet packet_type)
  result ← read_typed_value
  args' ← read_outparams args
  pure (result, args')
