-- ===== src/Reader/Hostile.antt =====
-- Typed values out of bytes that no writer made: which of them land, and which write past a value.
use libremo.Prelude.{
  ℕ, zero, suc, ◌+◌, ◌*◌, ◌^◌, ◌∙◌, ◌≤◌, ◌<◌, ◌≡◌, refl, ap, Bool, true, false, ◌&&◌, List, arith,
  length, get_elem?, some, ltb, le→ltb, set, length-set,
}
use native.Mathlib.Decide.{dec_lt}
use native.Mathlib.Nat.{le_refl}
use libremo.Error.{Result, ok, error, fault, timeout}
use libremo.Types.{
  BaseId, TypeId, plain, pointer, other, type_null, type_uint8, type_uint16, type_uint32,
  type_uint64, type_int8, type_int16, type_int32, type_int64, type_void, type_bool, type_cstr,
  type_double, type_float, size_of, base_code, scalar_value, cstr_value,
}
use libremo.Buffer.{store}
use libremo.Writer.Encoding.{is_scalar}
use libremo.Reader.{
  Reader, pure, read_uint8, read_type, header_type, read_into, read_value, read_scalar,
  read_pointer, read_by_type, read_typed_value, read_chars, read_cstr, read_ptr, zeros, skip_array,
}
use libremo.Reader.Decoding.{length-zeros, header-plain}
use libremo.Reader.Safety.{
  IsSafe, Lands, Lands-then, Lands-into, Lands-chars, read_uint8-outside, forward, forward-IsSafe,
  access-inside, access-outside, read_uint8-inside, store-inside,
}

-- A scalar with more bytes on the wire than its type has.
abbrev pub is_oversized : TypeId → ℕ → Bool
is_oversized (plain b) k = is_scalar b && ltb (size_of b) k
is_oversized (pointer b) k = false
is_oversized (other n) k = false

size_of-lt : (b : BaseId) → size_of b < 9
size_of-lt type_null = omega arith
size_of-lt _ = omega arith

scalar-Lands :
    (b : BaseId) (k : ℕ) (r : Reader)
    → IsSafe r
    → is_scalar b ≡ true
    → (is_scalar b && ltb (size_of b) k) ≡ false
    → Lands r (read_scalar b k r)
unfolding read_scalar read_value
scalar-Lands b k r s h f =
    let fits : k ≤ length (zeros (size_of b)) = ground (arith, length-zeros (size_of b)) in
    Lands-then r (read_into k 0 (zeros (size_of b)) r) (λ bytes. pure (scalar_value b bytes))
      (Lands-into k 0 (zeros (size_of b)) r s (omega arith))
      (λ bytes r1 s1 e1 h1. (s1, refl, le_refl r1.offset))

skip-IsSafe :
    (r : Reader) (n : ℕ)
    → IsSafe r
    → r.offset + n ≤ r.buffer.size
    → IsSafe (record r { offset = r.offset + n })
skip-IsSafe r n s h = record { inside = s.inside; small = s.small; within = h }

skip_array-inside :
    (r : Reader) (n : ℕ)
    → IsSafe r
    → n < 2 ^ 62
    → r.offset + n ≤ r.buffer.size
    → skip_array 1 n r ≡ ok (tt, record r { offset = r.offset + n })
unfolding skip_array
skip_array-inside r n s k h = ground (arith, s.inside, s.small)

pointer-Lands : (b : BaseId) (r : Reader) → IsSafe r → Lands r (read_pointer b r)
unfolding read_pointer read_ptr
pointer-Lands b r s = elim (dec_lt r.buffer.size (r.offset + size_of b)) [
  | yes h ↦ rw (access-outside r (size_of b) s (omega (arith, size_of-lt b)) h) tt
  | no h ↦
      let fits : r.offset + size_of b ≤ r.buffer.size = omega arith in
      rw
        (
          access-inside r (size_of b) s (omega (arith, size_of-lt b)) fits,
          skip_array-inside r (size_of b) s (omega (arith, size_of-lt b)) fits,
        )
        (skip-IsSafe r (size_of b) s fits, refl, omega arith)
]

cstr-Lands : (r : Reader) → IsSafe r → Lands r (read_by_type (plain type_cstr) 0 r)
unfolding read_by_type read_cstr
cstr-Lands r s = elim (dec_lt r.offset r.buffer.size) [
  | yes h ↦ rw (access-inside r 1 s (omega arith) (omega arith)) (
      Lands-then r (read_chars (suc r.buffer.size) r) (λ cs. pure (cstr_value cs))
        (Lands-chars (suc r.buffer.size) r s (omega arith))
        (λ cs r1 s1 e1 h1. (s1, refl, le_refl r1.offset)))
  | no h ↦ rw (access-outside r 1 s (omega arith) (omega arith)) tt
]

by_type-Lands :
    (t : TypeId) (k : ℕ) (r : Reader)
    → IsSafe r
    → is_oversized t k ≡ false
    → Lands r (read_by_type t k r)
unfolding read_by_type
by_type-Lands (plain type_null) k r s h = (s, refl, le_refl r.offset)
by_type-Lands (plain type_uint8) k r s h = scalar-Lands type_uint8 k r s refl h
by_type-Lands (plain type_uint16) k r s h = scalar-Lands type_uint16 k r s refl h
by_type-Lands (plain type_uint32) k r s h = scalar-Lands type_uint32 k r s refl h
by_type-Lands (plain type_uint64) k r s h = scalar-Lands type_uint64 k r s refl h
by_type-Lands (plain type_int8) k r s h = scalar-Lands type_int8 k r s refl h
by_type-Lands (plain type_int16) k r s h = scalar-Lands type_int16 k r s refl h
by_type-Lands (plain type_int32) k r s h = scalar-Lands type_int32 k r s refl h
by_type-Lands (plain type_int64) k r s h = scalar-Lands type_int64 k r s refl h
by_type-Lands (plain type_void) k r s h = (s, refl, le_refl r.offset)
by_type-Lands (plain type_bool) k r s h = (s, refl, le_refl r.offset)
by_type-Lands (plain type_cstr) k r s h = cstr-Lands r s
by_type-Lands (plain type_double) k r s h = scalar-Lands type_double k r s refl h
by_type-Lands (plain type_float) k r s h = scalar-Lands type_float k r s refl h
by_type-Lands (pointer type_uint8) k r s h = pointer-Lands type_uint8 r s
by_type-Lands (pointer type_uint16) k r s h = pointer-Lands type_uint16 r s
by_type-Lands (pointer type_uint32) k r s h = pointer-Lands type_uint32 r s
by_type-Lands (pointer type_uint64) k r s h = pointer-Lands type_uint64 r s
by_type-Lands (pointer type_int8) k r s h = pointer-Lands type_int8 r s
by_type-Lands (pointer type_int16) k r s h = pointer-Lands type_int16 r s
by_type-Lands (pointer type_int32) k r s h = pointer-Lands type_int32 r s
by_type-Lands (pointer type_int64) k r s h = pointer-Lands type_int64 r s
by_type-Lands (pointer type_bool) k r s h = pointer-Lands type_bool r s
by_type-Lands (pointer type_double) k r s h = pointer-Lands type_double r s
by_type-Lands (pointer type_float) k r s h = pointer-Lands type_float r s
by_type-Lands _ k r s h = tt

-- A value lands, and the reader has moved on by at least one byte.
abbrev pub Advances : {A : Type 0} → Reader → Result (A × Reader) → Type 0
Advances r (ok (a, r')) = IsSafe r' × (r'.buffer.size ≡ r.buffer.size) × (r.offset < r'.offset)
Advances r (error e) = Unit {0}
Advances r fault = ⊥
Advances r timeout = ⊥

behind : {A : Type 0} (r : Reader) (o : Result (A × Reader)) → Lands (forward r) o → Advances r o
behind r (ok (a, r')) (s, size, moved) = (s, size, omega arith)
behind r (error e) h = tt
behind r fault h = h
behind r timeout h = h

-- Whatever the bytes are, reading a typed value ends with a value or an exception, and with a
-- value the reader stays inside the buffer and has moved on by at least one byte, provided that
-- the header byte announces no more bytes than its type has.
pub read_typed_value-Advances :
    (r : Reader)
    → IsSafe r
    → ((h : ℕ)
        → get_elem? r.memory (r.buffer.start + r.offset) ≡ some h
        → is_oversized (header_type h).0 (header_type h).1 ≡ false)
    → Advances r (read_typed_value r)
unfolding read_typed_value read_type
read_typed_value-Advances r s sized = elim (dec_lt r.offset r.buffer.size) [
  | yes h ↦
      let (x, e, f) = read_uint8-inside r s h in
      rw f (
        behind r (read_by_type (header_type x).0 (header_type x).1 (forward r)) (
          by_type-Lands (header_type x).0 (header_type x).1 (forward r) (forward-IsSafe r s h)
            (sized x e)))
  | no h ↦ rw (read_uint8-outside r s (omega arith)) tt
]

store-outside : (m : List ℕ) (i v : ℕ) → length m ≤ i → store m i v ≡ fault
unfolding store
store-outside m i v h = rw (le→ltb i (length m) h) refl

-- With more bytes to read than the value has, and these bytes there, the loop writes past the value.
overrun :
    (rounds i : ℕ) (value : List ℕ) (r : Reader)
    → IsSafe r
    → i ≤ length value
    → length value < i + rounds
    → r.offset + length value < r.buffer.size + i
    → read_into rounds i value r ≡ fault
unfolding read_into
overrun zero i value r s h k m = absurd (omega arith)
overrun (suc rounds) i value r s h k m =
    let (x, _, f) = read_uint8-inside r s (omega arith) in
    elim (dec_lt i (length value)) [
      | yes inside ↦
          rw (f, store-inside value i x inside)
            (overrun rounds (i + 1) (set value i x) (forward r) (forward-IsSafe r s (omega arith))
              (omega (arith, length-set value i x)) (omega (arith, length-set value i x))
              (omega (arith, length-set value i x)))
      | no past ↦ rw (f, store-outside value i x (omega arith)) refl
    ]

by_type-scalar :
    (b : BaseId) (k : ℕ) (r : Reader)
    → is_scalar b ≡ true
    → read_by_type (plain b) k r ≡ read_scalar b k r
unfolding read_by_type
by_type-scalar type_uint8 k r h = refl
by_type-scalar type_uint16 k r h = refl
by_type-scalar type_uint32 k r h = refl
by_type-scalar type_uint64 k r h = refl
by_type-scalar type_int8 k r h = refl
by_type-scalar type_int16 k r h = refl
by_type-scalar type_int32 k r h = refl
by_type-scalar type_int64 k r h = refl
by_type-scalar type_double k r h = refl
by_type-scalar type_float k r h = refl
by_type-scalar _ k r h = cc

type-at :
    (x : ℕ) (r : Reader) (t : TypeId × ℕ)
    → read_uint8 r ≡ ok (x, forward r)
    → header_type x ≡ t
    → read_type r ≡ ok (t, forward r)
unfolding read_type
type-at x r t f e = rw f (ap (λ u. ok (u, forward r)) e)

scalar-overrun :
    (b : BaseId) (k : ℕ) (r : Reader)
    → size_of b < k
    → IsSafe r
    → r.offset + size_of b < r.buffer.size
    → read_scalar b k r ≡ fault
unfolding read_scalar read_value
scalar-overrun b k r big s room =
    let size = length-zeros (size_of b) in
    rw
      (overrun k 0 (zeros (size_of b)) r s (omega arith) (omega (arith, size))
        (omega (arith, size)))
      refl

-- A scalar's header byte that announces more bytes than the type has, with these bytes in the
-- buffer, makes the reader write outside of the local variable that takes the value.
pub read_typed_value-overrun :
    (b : BaseId) (k : ℕ) (r : Reader)
    → is_scalar b ≡ true
    → size_of b < k
    → k < 0xA
    → IsSafe r
    → get_elem? r.memory (r.buffer.start + r.offset) ≡ some (k * 16 + base_code b)
    → r.offset + 1 + size_of b < r.buffer.size
    → read_typed_value r ≡ fault
unfolding read_typed_value
read_typed_value-overrun b k r sc big small s e room =
    let (x, e1, f) = read_uint8-inside r s (omega arith) in
    let same : x ≡ k * 16 + base_code b = cc in
    let head : read_type r ≡ ok ((plain b, k), forward r) =
      type-at x r (plain b, k) f (ap header_type same ∙ header-plain b k small) in
    rw (head, by_type-scalar b k (forward r) sc)
      (scalar-overrun b k (forward r) big (forward-IsSafe r s (omega arith)) room)
