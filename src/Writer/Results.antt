-- ===== src/Writer/Results.antt =====
-- Typed values on the wire: what `write_value(const TypedValue&)` and `write_result` emit.
use libremo.Prelude.{
  ℕ, ◌≡◌, refl, ap, ◌∙◌, Bool, true, false, List, [], ◌∷◌, ◌++◌, arith, take, take_all, All, map,
  if◌then◌else◌, Bool-cases, inl, inr,
}
use libremo.Error.{◌>>=◌}
use libremo.Types.{
  BaseId, plain, pointer, TypedValue, type_null, type_void, type_bool, type_cstr, type_uint8,
  type_uint16, type_uint32, type_uint64, type_int8, type_int16, type_int32, type_int64, type_double,
  type_float, size_of, typed_value, scalar_value, bool_value, cstr_value, ptr_value, get_scalar,
  get_ptr, get_bool, get_cstr, not_same, is_ptr_type,
}
use libremo.Packet.{packet_result}
use libremo.Writer.{
  Writer, Arg, scalar, flag, string, ptr, arraysize, write_uint8, write_scalar, write_ptr,
  write_typed, write_by_type, write_arg, write_outparams, write_result,
}
use libremo.Writer.Append.{Emits, forget, write_uint8-Emits, >>=-Emits, ok-Emits}
use libremo.Writer.Encoding.{IsArg, is_scalar, is_pointee, encode_arg, write_arg-Emits}

-- The values that a typed value can hold and both sides of the wire know.
pub data Value : Type 0 where
  null void : Value
  arg : Arg → Value

-- The typed value that holds it.
unfoldable pub typed_of_arg : Arg → TypedValue
typed_of_arg (scalar b bytes) = scalar_value b bytes
typed_of_arg (flag x) = bool_value x
typed_of_arg (string chars) = cstr_value chars
typed_of_arg (ptr b bytes) = ptr_value b bytes
typed_of_arg (arraysize n) = typed_value (plain type_null)

unfoldable pub typed_of : Value → TypedValue
unfolding typed_of_arg
typed_of null = typed_value (plain type_null)
typed_of void = typed_value (plain type_void)
typed_of (arg a) = typed_of_arg a

abbrev pub IsValue : Value → Type 0
IsValue null = Unit {0}
IsValue void = Unit {0}
IsValue (arg a) = IsArg a

unfoldable pub encode_value : Value → List ℕ
unfolding encode_arg
encode_value null = 0x00 ∷ []
encode_value void = 0x09 ∷ []
encode_value (arg a) = encode_arg a

abbrev pub is_ptr_arg : Arg → Bool
is_ptr_arg (ptr b bytes) = true
is_ptr_arg _ = false

-- Of the arguments only what stands behind a pointer is sent back.
unfoldable pub encode_outparams : List Arg → List ℕ
unfolding encode_arg
encode_outparams [] = []
encode_outparams (a ∷ rest) =
    if is_ptr_arg a then encode_arg a ++ encode_outparams rest else encode_outparams rest

unfoldable pub encode_result : Value → List Arg → List ℕ
unfolding encode_value encode_outparams
encode_result v args = packet_result ∷ (encode_value v ++ encode_outparams args)

by_type-scalar :
    (b : BaseId) (bytes : List ℕ) (w : Writer)
    → is_scalar b ≡ true
    → write_by_type (plain b) (scalar_value b bytes) w ≡ write_scalar b (take (size_of b) bytes) w
unfolding write_by_type scalar_value get_scalar not_same
by_type-scalar type_uint8 bytes w h = refl
by_type-scalar type_uint16 bytes w h = refl
by_type-scalar type_uint32 bytes w h = refl
by_type-scalar type_uint64 bytes w h = refl
by_type-scalar type_int8 bytes w h = refl
by_type-scalar type_int16 bytes w h = refl
by_type-scalar type_int32 bytes w h = refl
by_type-scalar type_int64 bytes w h = refl
by_type-scalar type_double bytes w h = refl
by_type-scalar type_float bytes w h = refl
by_type-scalar _ bytes w h = cc

by_type-ptr :
    (b : BaseId) (bytes : List ℕ) (w : Writer)
    → is_pointee b ≡ true
    → write_by_type (pointer b) (ptr_value b bytes) w ≡ write_ptr b bytes w
unfolding write_by_type ptr_value get_ptr not_same
by_type-ptr type_uint8 bytes w h = refl
by_type-ptr type_uint16 bytes w h = refl
by_type-ptr type_uint32 bytes w h = refl
by_type-ptr type_uint64 bytes w h = refl
by_type-ptr type_int8 bytes w h = refl
by_type-ptr type_int16 bytes w h = refl
by_type-ptr type_int32 bytes w h = refl
by_type-ptr type_int64 bytes w h = refl
by_type-ptr type_bool bytes w h = refl
by_type-ptr type_double bytes w h = refl
by_type-ptr type_float bytes w h = refl
by_type-ptr _ bytes w h = cc

-- A typed value is written as the plain argument that it holds.
write_typed-arg : (a : Arg) (w : Writer) → IsArg a → write_typed (typed_of_arg a) w ≡ write_arg a w
unfolding write_typed typed_of_arg write_arg scalar_value ptr_value bool_value cstr_value get_bool
    get_cstr not_same
write_typed-arg (scalar b bytes) w v =
    by_type-scalar b bytes w v.0
    ∙ ap (λ bs. write_scalar b bs w) (take_all (size_of b) bytes (omega (arith, v.1)))
write_typed-arg (flag true) w v = refl
write_typed-arg (flag false) w v = refl
write_typed-arg (string cs) w v = refl
write_typed-arg (ptr b bytes) w v = by_type-ptr b bytes w v.0
write_typed-arg (arraysize n) w v = absurd v

pub write_typed-Emits : (v : Value) → IsValue v → Emits (write_typed (typed_of v)) (encode_value v)
unfolding write_typed typed_of encode_value typed_value
write_typed-Emits null h w hw = write_uint8-Emits 0x00 w hw
write_typed-Emits void h w hw = write_uint8-Emits 0x09 w hw
write_typed-Emits (arg a) h w hw = ap forget (write_typed-arg a w h) ∙ write_arg-Emits a h w hw

base-not_ptr : (b : BaseId) → is_ptr_type (plain b) ≡ false
unfolding is_ptr_type
base-not_ptr type_null = refl
base-not_ptr _ = refl

pointer-IsPtr : (b : BaseId) → is_ptr_type (pointer b) ≡ true
unfolding is_ptr_type
pointer-IsPtr type_null = refl
pointer-IsPtr _ = refl

is_ptr_type-arg : (a : Arg) → is_ptr_type (typed_of_arg a).type ≡ is_ptr_arg a
unfolding typed_of_arg scalar_value ptr_value bool_value cstr_value typed_value
is_ptr_type-arg (scalar b bytes) = base-not_ptr b
is_ptr_type-arg (flag x) = base-not_ptr type_bool
is_ptr_type-arg (string cs) = base-not_ptr type_cstr
is_ptr_type-arg (ptr b bytes) = pointer-IsPtr b
is_ptr_type-arg (arraysize n) = base-not_ptr type_null

write_outparams-Emits :
    (args : List Arg)
    → All IsArg args
    → Emits (write_outparams (map typed_of_arg args)) (encode_outparams args)
unfolding write_outparams encode_outparams
write_outparams-Emits [] v w hw = ok-Emits w hw
write_outparams-Emits (a ∷ rest) v w hw = elim (Bool-cases (is_ptr_arg a)) [
  | inl e ↦
      rw (is_ptr_type-arg a, e)
        (>>=-Emits (write_typed (typed_of_arg a)) (write_outparams (map typed_of_arg rest))
          (encode_arg a) (encode_outparams rest) (arg-Emits a v.0) (write_outparams-Emits rest v.1)
          w hw)
  | inr e ↦ rw (is_ptr_type-arg a, e) (write_outparams-Emits rest v.1 w hw)
]
  where
    arg-Emits : (c : Arg) → IsArg c → Emits (write_typed (typed_of_arg c)) (encode_arg c)
    arg-Emits c h u hu = ap forget (write_typed-arg c u h) ∙ write_arg-Emits c h u hu

-- A result packet holds the type byte, the result and what stands behind the pointers.
pub write_result-Emits :
    (v : Value) (args : List Arg)
    → IsValue v
    → All IsArg args
    → Emits (write_result (typed_of v) (map typed_of_arg args)) (encode_result v args)
unfolding write_result encode_result
write_result-Emits v args hv ha =
    >>=-Emits (write_uint8 packet_result)
      (λ w. write_typed (typed_of v) w >>= write_outparams (map typed_of_arg args))
      (packet_result ∷ []) (encode_value v ++ encode_outparams args)
      (write_uint8-Emits packet_result)
      (>>=-Emits (write_typed (typed_of v)) (write_outparams (map typed_of_arg args))
        (encode_value v) (encode_outparams args) (write_typed-Emits v hv)
        (write_outparams-Emits args ha))
