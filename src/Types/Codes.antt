-- ===== src/Types/Codes.antt =====
-- src/l0_system/types.h, `TypeId`, `TypeModifier`, and types.cpp, the functions on ids.
use Prim.Native.String.{String}
use libremo.Prelude.{
  ℕ, zero, suc, ◌/◌, ◌%◌, bit_and, bit_or, Bool, not, List, [], ◌∷◌, ◌==◌, if◌then◌else◌,
}

-- The enumerators without the pointer modifier, in the order of their codes.
pub data BaseId : Type 0 where
  type_null type_uint8 type_uint16 type_uint32 type_uint64 : BaseId
  type_int8 type_int16 type_int32 type_int64 : BaseId
  type_void type_any type_bool type_cstr type_double type_error type_float : BaseId

-- A value of the enum is a byte. `pointer b` is `b | modifier_ptr`; `other` holds the bytes that no
-- enumerator has.
pub data TypeId : Type 0 where
  plain : BaseId → TypeId
  pointer : BaseId → TypeId
  other : ℕ → TypeId

abbrev pub modifier_ptr : ℕ
modifier_ptr = 0xA0

abbrev pub base_code : BaseId → ℕ
base_code type_null = 0x00
base_code type_uint8 = 0x01
base_code type_uint16 = 0x02
base_code type_uint32 = 0x03
base_code type_uint64 = 0x04
base_code type_int8 = 0x05
base_code type_int16 = 0x06
base_code type_int32 = 0x07
base_code type_int64 = 0x08
base_code type_void = 0x09
base_code type_any = 0x0A
base_code type_bool = 0x0B
base_code type_cstr = 0x0C
base_code type_double = 0x0D
base_code type_error = 0x0E
base_code type_float = 0x0F

abbrev pub type_code : TypeId → ℕ
type_code (plain b) = base_code b
type_code (pointer b) = bit_or (base_code b) modifier_ptr
type_code (other n) = n

-- The enumerators by code; those from 0x0F on are never looked up but at 0x0F.
base_at : ℕ → List BaseId → BaseId
base_at n [] = type_float
base_at zero (b ∷ bs) = b
base_at (suc n) (b ∷ bs) = base_at n bs

unfoldable pub base_of_code : ℕ → BaseId
unfolding base_at
base_of_code n = base_at n (
    type_null ∷ type_uint8 ∷ type_uint16 ∷ type_uint32 ∷ type_uint64 ∷ type_int8 ∷ type_int16
    ∷ type_int32 ∷ type_int64 ∷ type_void ∷ type_any ∷ type_bool ∷ type_cstr ∷ type_double
    ∷ type_error ∷ [])

-- static_cast<TypeId>(h)
unfoldable pub type_of_code : ℕ → TypeId
unfolding base_of_code
type_of_code h =
    if h / 16 == 0
    then plain (base_of_code (h % 16))
    else if h / 16 == 0xA
    then pointer (base_of_code (h % 16))
    else other h

-- a != b of two ids
unfoldable pub not_same : TypeId → TypeId → Bool
not_same a b = not (type_code a == type_code b)

unfoldable pub is_ptr_type : TypeId → Bool
is_ptr_type id = bit_and (type_code id) modifier_ptr == modifier_ptr

unfoldable pub get_type_size : TypeId → ℕ
get_type_size (plain type_null) = 0
get_type_size (plain type_uint8) = 1
get_type_size (plain type_uint16) = 2
get_type_size (plain type_uint32) = 4
get_type_size (plain type_uint64) = 8
get_type_size (plain type_int8) = 1
get_type_size (plain type_int16) = 2
get_type_size (plain type_int32) = 4
get_type_size (plain type_int64) = 8
get_type_size (plain type_void) = 0
get_type_size (plain type_any) = 0
get_type_size (plain type_bool) = 1
get_type_size (plain type_cstr) = 0
get_type_size (plain type_double) = 8
get_type_size (plain type_error) = 0
get_type_size (plain type_float) = 4
get_type_size (pointer b) = 0
get_type_size (other n) = 0

unfoldable pub get_type_name : TypeId → String
get_type_name (plain type_null) = "null"
get_type_name (plain type_uint8) = "uint8_t"
get_type_name (plain type_uint16) = "uint16_t"
get_type_name (plain type_uint32) = "uint32_t"
get_type_name (plain type_uint64) = "uint64_t"
get_type_name (plain type_int8) = "int8_t"
get_type_name (plain type_int16) = "int16_t"
get_type_name (plain type_int32) = "int32_t"
get_type_name (plain type_int64) = "int64_t"
get_type_name (plain type_void) = "void"
get_type_name (plain type_any) = "any"
get_type_name (plain type_bool) = "bool"
get_type_name (plain type_cstr) = "char*"
get_type_name (plain type_double) = "double"
get_type_name (plain type_error) = "error"
get_type_name (plain type_float) = "float"
get_type_name (pointer type_uint8) = "uint8_t*"
get_type_name (pointer type_uint16) = "uint16_t*"
get_type_name (pointer type_uint32) = "uint32_t*"
get_type_name (pointer type_uint64) = "uint64_t*"
get_type_name (pointer type_int8) = "int8_t*"
get_type_name (pointer type_int16) = "int16_t*"
get_type_name (pointer type_int32) = "int32_t*"
get_type_name (pointer type_int64) = "int64_t*"
get_type_name (pointer type_void) = "void*"
get_type_name (pointer type_any) = "any*"
get_type_name (pointer type_bool) = "bool*"
get_type_name (pointer type_cstr) = "char**"
get_type_name (pointer type_double) = "double*"
get_type_name (pointer type_error) = "error*"
get_type_name (pointer type_float) = "float*"
get_type_name (pointer type_null) = "(unknown)"
get_type_name (other n) = "(unknown)"

-- sizeof of the C++ type that an id stands for; 0 where it stands for none.
abbrev pub size_of : BaseId → ℕ
size_of type_uint8 = 1
size_of type_uint16 = 2
size_of type_uint32 = 4
size_of type_uint64 = 8
size_of type_int8 = 1
size_of type_int16 = 2
size_of type_int32 = 4
size_of type_int64 = 8
size_of type_bool = 1
size_of type_double = 8
size_of type_float = 4
size_of type_null = 0
size_of type_void = 0
size_of type_any = 0
size_of type_cstr = 0
size_of type_error = 0
