-- ===== src/Reader/Decoding.antt =====
-- The reader takes back what the writer emitted: values, calls and results.
use libremo.Prelude.{
  ℕ, zero, suc, ◌+◌, ◌*◌, ◌/◌, ◌%◌, ◌≤◌, ◌<◌, ◌≡◌, ◌≢◌, refl, ap, subst, ◌∙◌, true, false, not,
  List, [], ◌∷◌, ◌++◌, arith, length, length-take, lt→ltb, drop, take, All, ◌==◌,
}
use libremo.Types.{
  BaseId, TypeId, plain, pointer, TypedValue, type_null, type_void, type_bool, type_cstr,
  type_uint8, type_uint16, type_uint32, type_uint64, type_int8, type_int16, type_int32, type_int64,
  type_double, type_float, base_code, type_code, type_of_code, size_of, typed_value, scalar_value,
  bool_value, cstr_value, ptr_value, get_type_size,
}
use libremo.Writer.{Arg, scalar, flag, string, ptr, arraysize}
use libremo.Writer.WireSize.{significant, significant-le}
use libremo.Writer.Encoding.{is_scalar, is_pointee, encode_scalar, encode_arg}
use libremo.Writer.Results.{Value, null, void, arg, typed_of_arg, typed_of, encode_value}
use libremo.Reader.{
  read_type, header_type, read_value, read_into, read_scalar, read_pointer, read_by_type,
  read_typed_value, read_cstr, read_ptr, zeros,
}
use libremo.Reader.Reads.{
  Reads, Reads-pure, Reads-bind, Reads-map, Reads-type, Reads-into, Reads-cstr, Reads-ptr,
}
use libremo.Reader.Lossless.{is_lossless, restored}

-- An argument that survives the wire: a representation of its type's size, no lost sign, and no NUL
-- inside a string.
abbrev pub IsPortable : Arg → Type 0
IsPortable (scalar b bytes) =
    (is_scalar b ≡ true) × (length bytes ≡ size_of b) × (is_lossless b bytes ≡ true)
IsPortable (flag x) = Unit {0}
IsPortable (string chars) = All (λ c. c ≢ 0) chars
IsPortable (ptr b bytes) = (is_pointee b ≡ true) × (length bytes ≡ size_of b)
IsPortable (arraysize n) = ⊥

abbrev pub IsPortableValue : Value → Type 0
IsPortableValue null = Unit {0}
IsPortableValue void = Unit {0}
IsPortableValue (arg a) = IsPortable a

type_of_code-base : (b : BaseId) → type_of_code (base_code b) ≡ plain b
unfolding type_of_code
type_of_code-base type_null = refl
type_of_code-base _ = refl

base_code-lt : (b : BaseId) → base_code b < 16
base_code-lt type_null = omega arith
base_code-lt _ = omega arith

-- A header byte below 0xA0 is a modifier over a plain type.
pub header-plain :
    (b : BaseId) (k : ℕ) → k < 0xA → header_type (k * 16 + base_code b) ≡ (plain b, k)
unfolding header_type
header-plain b k h =
    let hi : (k * 16 + base_code b) / 16 % 16 ≡ k = omega (arith, base_code-lt b) in
    let lo : (k * 16 + base_code b) % 16 ≡ base_code b = omega (arith, base_code-lt b) in
    rw (hi, lo, lt→ltb k 0xA h, type_of_code-base b) refl

pub header-pointer :
    (b : BaseId) → header_type (type_code (pointer b)) ≡ (pointer b, get_type_size (plain b))
unfolding header_type
header-pointer type_null = refl
header-pointer _ = refl

pub length-zeros : (n : ℕ) → length (zeros n) ≡ n
unfolding zeros
length-zeros zero = refl
length-zeros (suc n) = ap suc (length-zeros n)

pub size_of-lt : (b : BaseId) → size_of b < 0xA
size_of-lt type_null = omega arith
size_of-lt _ = omega arith

pub Reads-value :
    (b : BaseId) (bytes : List ℕ)
    → length bytes ≡ size_of b
    → is_lossless b bytes ≡ true
    → Reads (read_value b (significant b bytes)) (take (significant b bytes) bytes) bytes
unfolding read_value
Reads-value b bytes e l =
    let k = significant b bytes in
    let taken : length (take k bytes) ≡ k =
      omega (arith, length-take k bytes, significant-le b bytes) in
    let room : length (take k bytes) ≤ length (zeros (size_of b)) =
      omega (arith, length-zeros (size_of b), significant-le b bytes) in
    subst (λ n. Reads (read_into n 0 (zeros (size_of b))) (take k bytes) bytes) taken
      (subst (λ v. Reads (read_into (length (take k bytes)) 0 (zeros (size_of b))) (take k bytes) v)
        (ap (λ n. take k bytes ++ drop n (zeros (size_of b))) taken ∙ restored b bytes e l)
        (Reads-into (take k bytes) (zeros (size_of b)) room))

by_type-Reads :
    (b : BaseId) (k : ℕ) (xs : List ℕ) (v : TypedValue)
    → is_scalar b ≡ true
    → Reads (read_scalar b k) xs v
    → Reads (read_by_type (plain b) k) xs v
unfolding read_by_type
by_type-Reads type_uint8 k xs v h p = p
by_type-Reads type_uint16 k xs v h p = p
by_type-Reads type_uint32 k xs v h p = p
by_type-Reads type_uint64 k xs v h p = p
by_type-Reads type_int8 k xs v h p = p
by_type-Reads type_int16 k xs v h p = p
by_type-Reads type_int32 k xs v h p = p
by_type-Reads type_int64 k xs v h p = p
by_type-Reads type_double k xs v h p = p
by_type-Reads type_float k xs v h p = p
by_type-Reads _ k xs v h p = cc

by_type_ptr-Reads :
    (b : BaseId) (k : ℕ) (xs : List ℕ) (v : TypedValue)
    → is_pointee b ≡ true
    → Reads (read_pointer b) xs v
    → Reads (read_by_type (pointer b) k) xs v
unfolding read_by_type
by_type_ptr-Reads type_uint8 k xs v h p = p
by_type_ptr-Reads type_uint16 k xs v h p = p
by_type_ptr-Reads type_uint32 k xs v h p = p
by_type_ptr-Reads type_uint64 k xs v h p = p
by_type_ptr-Reads type_int8 k xs v h p = p
by_type_ptr-Reads type_int16 k xs v h p = p
by_type_ptr-Reads type_int32 k xs v h p = p
by_type_ptr-Reads type_int64 k xs v h p = p
by_type_ptr-Reads type_bool k xs v h p = p
by_type_ptr-Reads type_double k xs v h p = p
by_type_ptr-Reads type_float k xs v h p = p
by_type_ptr-Reads _ k xs v h p = cc

-- After its header byte a value is read by its type.
Reads-header :
    (h k : ℕ) (t : TypeId) (xs : List ℕ) (v : TypedValue)
    → header_type h ≡ (t, k)
    → Reads (read_by_type t k) xs v
    → Reads read_typed_value (h ∷ xs) v
unfolding read_typed_value
Reads-header h k t xs v e p =
    Reads-bind read_type (λ tm. read_by_type tm.0 tm.1) (h ∷ []) xs (t, k) v
      (subst (λ tm. Reads read_type (h ∷ []) tm) e (Reads-type h)) p

Reads-scalar :
    (b : BaseId) (bytes : List ℕ)
    → IsPortable (scalar b bytes)
    → Reads read_typed_value (encode_scalar b bytes) (scalar_value b bytes)
unfolding encode_scalar read_scalar
Reads-scalar b bytes (s, e, l) =
    let k = significant b bytes in
    Reads-header (k * 16 + base_code b) k (plain b) (take k bytes) (scalar_value b bytes)
      (header-plain b k (omega (arith, significant-le b bytes, size_of-lt b)))
      (by_type-Reads b k (take k bytes) (scalar_value b bytes) s (
        Reads-map (read_value b k) (scalar_value b) (take k bytes) bytes (Reads-value b bytes e l)))

Reads-pointer :
    (b : BaseId) (bytes : List ℕ)
    → IsPortable (ptr b bytes)
    → Reads read_typed_value (type_code (pointer b) ∷ bytes) (ptr_value b bytes)
unfolding read_pointer
Reads-pointer b bytes (s, e) =
    Reads-header (type_code (pointer b)) _ (pointer b) bytes (ptr_value b bytes) (header-pointer b)
      (by_type_ptr-Reads b _ bytes (ptr_value b bytes) s
        (Reads-map (read_ptr b) (ptr_value b) bytes bytes (Reads-ptr b bytes e)))

bool-Reads : (k : ℕ) → Reads (read_by_type (plain type_bool) k) [] (bool_value (not (k == 0)))
unfolding read_by_type
bool-Reads k = Reads-pure (bool_value (not (k == 0)))

cstr-Reads :
    (cs : List ℕ)
    → All (λ c. c ≢ 0) cs
    → Reads (read_by_type (plain type_cstr) 0) (cs ++ (0 ∷ [])) (cstr_value cs)
unfolding read_by_type
cstr-Reads cs v = Reads-map read_cstr cstr_value (cs ++ (0 ∷ [])) cs (Reads-cstr cs v)

-- Every portable argument is read back as the typed value that holds it.
pub Reads-arg : (a : Arg) → IsPortable a → Reads read_typed_value (encode_arg a) (typed_of_arg a)
unfolding encode_arg typed_of_arg
Reads-arg (scalar b bytes) v = Reads-scalar b bytes v
Reads-arg (flag true) v =
    Reads-header 0x1B 1 (plain type_bool) [] _ (header-plain type_bool 1 (omega arith))
      (bool-Reads 1)
Reads-arg (flag false) v =
    Reads-header 0x0B 0 (plain type_bool) [] _ (header-plain type_bool 0 (omega arith))
      (bool-Reads 0)
Reads-arg (string cs) v =
    Reads-header 0x0C 0 (plain type_cstr) (cs ++ (0 ∷ [])) (cstr_value cs)
      (header-plain type_cstr 0 (omega arith)) (cstr-Reads cs v)
Reads-arg (ptr b bytes) v = Reads-pointer b bytes v
Reads-arg (arraysize n) v = absurd v

null-Reads : Reads (read_by_type (plain type_null) 0) [] (typed_value (plain type_null))
unfolding read_by_type
null-Reads = Reads-pure (typed_value (plain type_null))

void-Reads : Reads (read_by_type (plain type_void) 0) [] (typed_value (plain type_void))
unfolding read_by_type
void-Reads = Reads-pure (typed_value (plain type_void))

pub Reads-typed :
    (v : Value) → IsPortableValue v → Reads read_typed_value (encode_value v) (typed_of v)
unfolding encode_value typed_of
Reads-typed null h =
    Reads-header 0x00 0 (plain type_null) [] _ (header-plain type_null 0 (omega arith)) null-Reads
Reads-typed void h =
    Reads-header 0x09 0 (plain type_void) [] _ (header-plain type_void 0 (omega arith)) void-Reads
Reads-typed (arg a) h = Reads-arg a h
