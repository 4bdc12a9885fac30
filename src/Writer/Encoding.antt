-- ===== src/Writer/Encoding.antt =====
-- The wire format, written down apart from the code, and that the writer emits it.
use libremo.Prelude.{
  ℕ, zero, suc, ◌+◌, ◌*◌, ◌%◌, ◌≤◌, ◌<◌, ◌≡◌, refl, ap, ◌∙◌, Bool, true, false, List, [], ◌∷◌, ◌++◌,
  arith, length, drop, take, All, bit_or, if◌then◌else◌, ◌==◌, get_elem?-drop, drop-suc_of_drop,
  take_all,
}
use libremo.Error.{Result, ok, ◌>>=◌, >>=-ok}
use libremo.Types.{
  BaseId, pointer, type_null, type_bool, type_uint8, type_uint16, type_uint32, type_uint64,
  type_int8, type_int16, type_int32, type_int64, type_double, type_float, base_code, type_code,
  size_of,
}
use libremo.Writer.{
  Writer, Arg, scalar, flag, string, ptr, arraysize, write_uint8, write_from, write_scalar,
  write_ptr, write_cstr, write_chars, write_bool, write_arg, write_args, write_call, write_elements,
}
use libremo.Packet.{packet_call}
use libremo.Writer.Append.{Emits, write_all, write_uint8-Emits, >>=-Emits, ok-Emits, clear, forget}
use libremo.Writer.WireSize.{significant, wire_loop-eq-significant, significant-le}

abbrev pub is_scalar : BaseId → Bool
is_scalar type_uint8 = true
is_scalar type_uint16 = true
is_scalar type_uint32 = true
is_scalar type_uint64 = true
is_scalar type_int8 = true
is_scalar type_int16 = true
is_scalar type_int32 = true
is_scalar type_int64 = true
is_scalar type_double = true
is_scalar type_float = true
is_scalar _ = false

-- The types that a pointer argument may lead to.
abbrev pub is_pointee : BaseId → Bool
is_pointee type_bool = true
is_pointee b = is_scalar b

-- A header byte with the type in its low half, and what follows it.
unfoldable pub encode_scalar : BaseId → List ℕ → List ℕ
encode_scalar b bytes = (significant b bytes * 16 + base_code b) ∷ take (significant b bytes) bytes

unfoldable pub encode_arg : Arg → List ℕ
unfolding encode_scalar
encode_arg (scalar b bytes) = encode_scalar b bytes
encode_arg (flag x) = (if x then 0x1B else 0x0B) ∷ []
encode_arg (string chars) = 0x0C ∷ (chars ++ (0 ∷ []))
encode_arg (ptr b bytes) = type_code (pointer b) ∷ bytes
encode_arg (arraysize n) = []

unfoldable pub encode_args : List Arg → List ℕ
unfolding encode_arg
encode_args [] = []
encode_args (a ∷ rest) = encode_arg a ++ encode_args rest

unfoldable pub encode_call : List ℕ → List Arg → List ℕ
unfolding encode_args
encode_call function args = packet_call ∷ (encode_arg (string function) ++ encode_args args)

-- An argument whose representation has the size of its type, and that is no array size.
abbrev pub IsArg : Arg → Type 0
IsArg (scalar b bytes) = (is_scalar b ≡ true) × (length bytes ≡ size_of b)
IsArg (flag x) = Unit {0}
IsArg (string chars) = Unit {0}
IsArg (ptr b bytes) = (is_pointee b ≡ true) × (length bytes ≡ size_of b)
IsArg (arraysize n) = ⊥

write_from-Emits :
    (n i : ℕ) (p ys : List ℕ) → drop i p ≡ ys → n ≤ length ys → Emits (write_from n i p) (take n ys)
unfolding write_from
write_from-Emits zero i p ys e h w hw = ok-Emits w hw
write_from-Emits (suc n) i p [] e h w hw = absurd (omega arith)
write_from-Emits (suc n) i p (y ∷ ys) e h w hw =
    rw (get_elem?-drop i p y ys e, write_from)
      (>>=-Emits (write_uint8 y) (write_from n (i + 1) p) (y ∷ []) (take n ys) (write_uint8-Emits y)
        (write_from-Emits n (i + 1) p ys (drop-suc_of_drop i p y ys e) (omega arith)) w hw)

-- The header byte joins two halves that do not overlap.
agree : (f g : ℕ → ℕ) → ℕ → Bool
agree f g zero = true
agree f g (suc n) = if f n == g n then agree f g n else false

eq_of_agree : (f g : ℕ → ℕ) (n k : ℕ) → k < n → agree f g n ≡ true → f k ≡ g k
unfolding agree
eq_of_agree f g zero k l h = absurd (omega arith)
eq_of_agree f g (suc n) k l h = ground (arith, eq_of_agree f g n k)

header_table :
    (b : BaseId)
    → agree (λ k. bit_or (k * 16) (base_code b) % 256) (λ k. k * 16 + base_code b) 9 ≡ true
unfolding agree
header_table type_null = refl
header_table _ = refl

header-eq :
    (b : BaseId) (k : ℕ) → k < 9 → bit_or (k * 16) (base_code b) % 256 ≡ k * 16 + base_code b
header-eq b k h =
    eq_of_agree (λ j. bit_or (j * 16) (base_code b) % 256) (λ j. j * 16 + base_code b) 9 k h
      (header_table b)

size_of-lt : (b : BaseId) → size_of b < 9
size_of-lt type_null = omega arith
size_of-lt _ = omega arith

significant-lt : (b : BaseId) (bytes : List ℕ) → length bytes ≡ size_of b → significant b bytes < 9
significant-lt b bytes h = omega (arith, significant-le b bytes, size_of-lt b)

write_scalar-Emits :
    (b : BaseId) (bytes : List ℕ)
    → length bytes ≡ size_of b
    → Emits (write_scalar b bytes) (encode_scalar b bytes)
unfolding write_scalar encode_scalar
write_scalar-Emits b bytes h w hw =
    rw
      (
        wire_loop-eq-significant b bytes h,
        header-eq b (significant b bytes) (significant-lt b bytes h),
      )
      (>>=-Emits (write_uint8 (significant b bytes * 16 + base_code b))
        (write_from (significant b bytes) 0 bytes) (_ ∷ []) (take (significant b bytes) bytes)
        (write_uint8-Emits _)
        (write_from-Emits (significant b bytes) 0 bytes bytes refl (significant-le b bytes)) w hw)

-- The array size that a pointer without one gets is kept while its type is written.
sized : ℕ → Writer → Result Writer
sized code w = write_uint8 code (record w { arraysize = 1 })

sized-Emits : (code : ℕ) → Emits (sized code) (code ∷ [])
unfolding sized write_uint8 write_all
sized-Emits code w h = ground arith

sized-arraysize : (code : ℕ) (w w' : Writer) → sized code w ≡ ok w' → w'.arraysize ≡ 1
unfolding sized write_uint8
sized-arraysize code w w' h = ground arith

one_element :
    (n : ℕ) (p : List ℕ) (w : Writer) (r : Result Writer)
    → ((w' : Writer) → r ≡ ok w' → w'.arraysize ≡ 1)
    → (r >>= λ w'. write_elements w'.arraysize n p w') ≡ (r >>= λ w'. write_from n 0 p w')
unfolding write_elements
one_element n p w (ok w') h = rw (h w' refl) (>>=-ok _)
one_element n p w _ h = refl

ptr_sized :
    (b : BaseId) (bytes : List ℕ) (w : Writer)
    → w.has_arraysize ≡ false
    → write_ptr b bytes w
      ≡ (sized (type_code (pointer b)) w >>= λ w'. write_elements w'.arraysize (size_of b) bytes w')
unfolding write_ptr sized
ptr_sized b bytes w h = simp h

ptr-Emits :
    (b : BaseId) (bytes : List ℕ)
    → length bytes ≡ size_of b
    → Emits
        (λ w. sized (type_code (pointer b)) w >>= write_from (size_of b) 0 bytes)
        (type_code (pointer b) ∷ bytes)
ptr-Emits b bytes h w hw =
    >>=-Emits (sized (type_code (pointer b))) (write_from (size_of b) 0 bytes)
      (type_code (pointer b) ∷ []) (take (size_of b) bytes) (sized-Emits (type_code (pointer b)))
      (write_from-Emits (size_of b) 0 bytes bytes refl (omega arith)) w hw
    ∙ ap (λ ys. write_all (type_code (pointer b) ∷ ys) (clear w))
        (take_all (size_of b) bytes (omega arith))

write_ptr-Emits :
    (b : BaseId) (bytes : List ℕ)
    → length bytes ≡ size_of b
    → Emits (write_ptr b bytes) (type_code (pointer b) ∷ bytes)
unfolding write_ptr sized
write_ptr-Emits b bytes h w hw =
    ap forget (
      ptr_sized b bytes w hw
      ∙ one_element (size_of b) bytes w (sized (type_code (pointer b)) w)
          (sized-arraysize (type_code (pointer b)) w))
    ∙ ptr-Emits b bytes h w hw

write_chars-Emits : (cs : List ℕ) → Emits (write_chars cs) cs
unfolding write_chars
write_chars-Emits [] w hw = ok-Emits w hw
write_chars-Emits (c ∷ cs) w hw =
    >>=-Emits (write_uint8 c) (write_chars cs) (c ∷ []) cs (write_uint8-Emits c)
      (write_chars-Emits cs) w hw

write_cstr-Emits : (cs : List ℕ) → Emits (write_cstr cs) (0x0C ∷ (cs ++ (0 ∷ [])))
unfolding write_cstr
write_cstr-Emits cs =
    >>=-Emits (write_uint8 0x0C) (λ w. write_chars cs w >>= write_uint8 0) (0x0C ∷ [])
      (cs ++ (0 ∷ [])) (write_uint8-Emits 0x0C)
      (>>=-Emits (write_chars cs) (write_uint8 0) cs (0 ∷ []) (write_chars-Emits cs)
        (write_uint8-Emits 0))

write_bool-Emits : (x : Bool) → Emits (write_bool x) ((if x then 0x1B else 0x0B) ∷ [])
unfolding write_bool
write_bool-Emits true = write_uint8-Emits 0x1B
write_bool-Emits false = write_uint8-Emits 0x0B

pub write_arg-Emits : (a : Arg) → IsArg a → Emits (write_arg a) (encode_arg a)
unfolding write_arg encode_arg
write_arg-Emits (scalar b bytes) v = write_scalar-Emits b bytes v.1
write_arg-Emits (flag x) v = write_bool-Emits x
write_arg-Emits (string cs) v = write_cstr-Emits cs
write_arg-Emits (ptr b bytes) v = write_ptr-Emits b bytes v.1
write_arg-Emits (arraysize n) v = absurd v

pub write_args-Emits :
    (args : List Arg) → All IsArg args → Emits (write_args args) (encode_args args)
unfolding write_args encode_args
write_args-Emits [] v w hw = ok-Emits w hw
write_args-Emits (a ∷ rest) v w hw =
    >>=-Emits (write_arg a) (write_args rest) (encode_arg a) (encode_args rest)
      (write_arg-Emits a v.0) (write_args-Emits rest v.1) w hw

-- `write_call` emits the type byte, the name and the arguments in order.
pub write_call-Emits :
    (function : List ℕ) (args : List Arg)
    → All IsArg args
    → Emits (write_call function args) (encode_call function args)
unfolding write_call encode_call
write_call-Emits function args v =
    >>=-Emits (write_uint8 packet_call) (λ w. write_cstr function w >>= write_args args)
      (packet_call ∷ []) (encode_arg (string function) ++ encode_args args)
      (write_uint8-Emits packet_call)
      (>>=-Emits (write_cstr function) (write_args args) (encode_arg (string function))
        (encode_args args) (write_arg-Emits (string function) tt) (write_args-Emits args v))
