-- ===== src/Dump/Calls.antt =====
-- The texts of the calls and results that a writer makes.
use libremo.Prelude.{
  ℕ, ◌+◌, ◌*◌, ◌≡◌, ◌≢◌, refl, sym, subst, true, false, not, List, [], ◌∷◌, ◌++◌, ◌==◌, arith,
  length, take, All, codes,
}
use libremo.Types.{
  BaseId, TypeId, plain, pointer, type_null, type_void, type_bool, type_cstr, type_uint8,
  type_uint16, type_uint32, type_uint64, type_int8, type_int16, type_int32, type_int64, type_double,
  type_float, base_code, type_code, size_of, get_type_size,
}
use libremo.Writer.{Arg, scalar, flag, string, ptr, arraysize}
use libremo.Writer.WireSize.{significant, significant-le}
use libremo.Writer.Encoding.{is_scalar, is_pointee, encode_scalar, encode_arg}
use libremo.Writer.Results.{Value, null, void, arg, encode_value}
use libremo.Reader.{pure, read_type, header_type, read_value, read_cstr, zeros}
use libremo.Reader.Reads.{Reads, Reads-pure, Reads-bind, Reads-map, Reads-into, Reads-cstr}
use libremo.Reader.Decoding.{
  IsPortable, IsPortableValue, Reads-value, header-plain, header-pointer, length-zeros, size_of-lt,
}
use libremo.Reader.Packets.{overwritten, head_type}
use libremo.Dump.{
  value_text, type_label, bool_text, any_set, format_scalar, format_cstr, format_by_type,
  format_value,
}

module _ (float_text : BaseId → List ℕ → List ℕ) where
  -- What stands behind a pointer.
  abbrev pub pointee_text : BaseId → List ℕ → List ℕ
  pointee_text type_bool bytes = bool_text (any_set bytes)
  pointee_text b bytes = value_text float_text b bytes

  abbrev pub arg_text : Arg → List ℕ
  arg_text (scalar b bytes) = type_label (plain b) ++ value_text float_text b bytes
  arg_text (flag x) = bool_text x
  arg_text (string chars) = b'"' ∷ (chars ++ (b'"' ∷ []))
  arg_text (ptr b bytes) = type_label (pointer b) ++ pointee_text b bytes
  arg_text (arraysize n) = []

  -- Arguments, with commas between them.
  abbrev pub args_text : List Arg → List ℕ
  args_text [] = []
  args_text (a ∷ []) = arg_text a
  args_text (a ∷ b ∷ rest) = arg_text a ++ (codes ", " ++ args_text (b ∷ rest))

  Reads-header :
      (h k : ℕ) (t : TypeId) (xs text : List ℕ)
      → header_type h ≡ (t, k)
      → Reads (format_by_type float_text t k) xs text
      → Reads (format_value float_text) (h ∷ xs) text
  unfolding format_value
  Reads-header h k t xs text e p =
      Reads-bind read_type (λ tm. format_by_type float_text tm.0 tm.1) (h ∷ []) xs (t, k) text
        (head_type h k t e) p

  by_type-scalar :
      (b : BaseId) (k : ℕ)
      → is_scalar b ≡ true
      → format_by_type float_text (plain b) k ≡ format_scalar float_text (plain b) b k
  unfolding format_by_type
  by_type-scalar type_uint8 k h = refl
  by_type-scalar type_uint16 k h = refl
  by_type-scalar type_uint32 k h = refl
  by_type-scalar type_uint64 k h = refl
  by_type-scalar type_int8 k h = refl
  by_type-scalar type_int16 k h = refl
  by_type-scalar type_int32 k h = refl
  by_type-scalar type_int64 k h = refl
  by_type-scalar type_double k h = refl
  by_type-scalar type_float k h = refl
  by_type-scalar _ k h = cc

  Reads-scalar :
      (b : BaseId) (bytes : List ℕ)
      → IsPortable (scalar b bytes)
      → Reads (format_value float_text) (encode_scalar b bytes) (arg_text (scalar b bytes))
  unfolding encode_scalar format_scalar
  Reads-scalar b bytes (s, e, l) =
      let k = significant b bytes in
      Reads-header (k * 16 + base_code b) k (plain b) (take k bytes) (arg_text (scalar b bytes))
        (header-plain b k (omega (arith, significant-le b bytes, size_of-lt b)))
        (subst (λ m. Reads m (take k bytes) (arg_text (scalar b bytes)))
          (sym (by_type-scalar b k s))
          (Reads-map (read_value b k) (λ bs. type_label (plain b) ++ value_text float_text b bs)
            (take k bytes) bytes (Reads-value b bytes e l)))

  -- All bytes of a value are read.
  Reads-whole :
      (b : BaseId) (bytes : List ℕ)
      → length bytes ≡ size_of b
      → Reads (read_value b (size_of b)) bytes bytes
  unfolding read_value
  Reads-whole b bytes e = overwritten (size_of b) (zeros (size_of b)) bytes (length-zeros _) e

  pointer-Reads :
      (b : BaseId) (bytes : List ℕ)
      → length bytes ≡ size_of b
      → Reads
          (format_scalar float_text (pointer b) b (size_of b))
          bytes
          (type_label (pointer b) ++ value_text float_text b bytes)
  unfolding format_scalar
  pointer-Reads b bytes e =
      Reads-map (read_value b (size_of b))
        (λ bs. type_label (pointer b) ++ value_text float_text b bs) bytes bytes
        (Reads-whole b bytes e)

  bool_ptr-Reads :
      (bytes : List ℕ)
      → length bytes ≡ 1
      → Reads
          (format_by_type float_text (pointer type_bool) 1)
          bytes
          (arg_text (ptr type_bool bytes))
  unfolding format_by_type read_value any_set zeros
  bool_ptr-Reads [] e = absurd (omega arith)
  bool_ptr-Reads (x ∷ y ∷ ys) e = absurd (omega arith)
  bool_ptr-Reads (x ∷ []) e =
      Reads-map (read_value type_int64 1)
        (λ bs. type_label (pointer type_bool) ++ bool_text (any_set bs)) (x ∷ [])
        (x ∷ (0 ∷ 0 ∷ 0 ∷ 0 ∷ 0 ∷ 0 ∷ 0 ∷ [])) (Reads-into (x ∷ []) (zeros 8) (omega arith))

  by_type-pointer :
      (b : BaseId) (bytes : List ℕ)
      → is_pointee b ≡ true
      → length bytes ≡ size_of b
      → Reads
          (format_by_type float_text (pointer b) (get_type_size (plain b)))
          bytes
          (arg_text (ptr b bytes))
  unfolding format_by_type get_type_size
  by_type-pointer type_bool bytes h e = bool_ptr-Reads bytes e
  by_type-pointer type_uint8 bytes h e = pointer-Reads type_uint8 bytes e
  by_type-pointer type_uint16 bytes h e = pointer-Reads type_uint16 bytes e
  by_type-pointer type_uint32 bytes h e = pointer-Reads type_uint32 bytes e
  by_type-pointer type_uint64 bytes h e = pointer-Reads type_uint64 bytes e
  by_type-pointer type_int8 bytes h e = pointer-Reads type_int8 bytes e
  by_type-pointer type_int16 bytes h e = pointer-Reads type_int16 bytes e
  by_type-pointer type_int32 bytes h e = pointer-Reads type_int32 bytes e
  by_type-pointer type_int64 bytes h e = pointer-Reads type_int64 bytes e
  by_type-pointer type_double bytes h e = pointer-Reads type_double bytes e
  by_type-pointer type_float bytes h e = pointer-Reads type_float bytes e
  by_type-pointer _ bytes h e = cc

  bool-Reads :
      (k : ℕ) → Reads (format_by_type float_text (plain type_bool) k) [] (bool_text (not (k == 0)))
  unfolding format_by_type
  bool-Reads k = Reads-pure (bool_text (not (k == 0)))

  cstr-Reads :
      (cs : List ℕ)
      → All (λ c. c ≢ 0) cs
      → Reads
          (format_by_type float_text (plain type_cstr) 0)
          (cs ++ (0 ∷ []))
          (arg_text (string cs))
  unfolding format_by_type format_cstr
  cstr-Reads cs v =
      Reads-map read_cstr (λ chars. b'"' ∷ (chars ++ (b'"' ∷ []))) (cs ++ (0 ∷ [])) cs
        (Reads-cstr cs v)

  -- Every portable argument is printed by its type and value.
  pub Reads-arg_text :
      (a : Arg) → IsPortable a → Reads (format_value float_text) (encode_arg a) (arg_text a)
  unfolding encode_arg
  Reads-arg_text (scalar b bytes) v = Reads-scalar b bytes v
  Reads-arg_text (flag true) v =
      Reads-header 0x1B 1 (plain type_bool) [] _ (header-plain type_bool 1 (omega arith))
        (bool-Reads 1)
  Reads-arg_text (flag false) v =
      Reads-header 0x0B 0 (plain type_bool) [] _ (header-plain type_bool 0 (omega arith))
        (bool-Reads 0)
  Reads-arg_text (string cs) v =
      Reads-header 0x0C 0 (plain type_cstr) (cs ++ (0 ∷ [])) (arg_text (string cs))
        (header-plain type_cstr 0 (omega arith)) (cstr-Reads cs v)
  Reads-arg_text (ptr b bytes) v =
      Reads-header (type_code (pointer b)) (get_type_size (plain b)) (pointer b) bytes
        (arg_text (ptr b bytes)) (header-pointer b) (by_type-pointer b bytes v.0 v.1)
  Reads-arg_text (arraysize n) v = absurd v

  abbrev pub typed_text : Value → List ℕ
  typed_text null = type_label (plain type_null)
  typed_text void = type_label (plain type_void)
  typed_text (arg a) = arg_text a

  null-Reads :
      (b : BaseId)
      → format_by_type float_text (plain b) 0 ≡ pure (type_label (plain b))
      → Reads (format_by_type float_text (plain b) 0) [] (type_label (plain b))
  null-Reads b e =
      subst (λ m. Reads m [] (type_label (plain b))) (sym e) (Reads-pure (type_label (plain b)))

  pub Reads-typed_text :
      (v : Value)
      → IsPortableValue v
      → Reads (format_value float_text) (encode_value v) (typed_text v)
  unfolding encode_value format_by_type
  Reads-typed_text null h =
      Reads-header 0x00 0 (plain type_null) [] _ (header-plain type_null 0 (omega arith))
        (null-Reads type_null refl)
  Reads-typed_text void h =
      Reads-header 0x09 0 (plain type_void) [] _ (header-plain type_void 0 (omega arith))
        (null-Reads type_void refl)
  Reads-typed_text (arg a) h = Reads-arg_text a h
