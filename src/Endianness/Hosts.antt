-- ===== src/Endianness/Hosts.antt =====
-- What is written on one host is read on another one.
use libremo.Prelude.{
  ℕ, zero, suc, ◌+◌, ◌*◌, ◌/◌, ◌%◌, ◌^◌, ◌<◌, ◌≡◌, refl, sym, ap, subst, ◌∙◌, List, [], ◌∷◌, ◌++◌,
  arith, length, length-append, All,
}
use mathlib.Core.List.{reverse, reverse-cons, reverse-reverse}
use native.Mathlib.Nat.{pow-suc}
use libremo.Endianness.{
  ByteOrder, little, big, Width, uint8, uint16, uint32, uint64, width_size, unsigned_of, bytes_of,
  native_bytes, native_value, bswap, remo_le, get_le, set_le, get_le_ua, set_le_ua,
}

abbrev AreBytes : List ℕ → Type 0
AreBytes = All (λ x. x < 256)

bytes_of-unsigned_of :
    (bytes : List ℕ) → AreBytes bytes → bytes_of (length bytes) (unsigned_of bytes) ≡ bytes
unfolding bytes_of unsigned_of
bytes_of-unsigned_of [] h = refl
bytes_of-unsigned_of (x ∷ xs) (h, hs) =
    let low : (x + 256 * unsigned_of xs) % 256 ≡ x = omega arith in
    let high : (x + 256 * unsigned_of xs) / 256 ≡ unsigned_of xs = omega arith in
    rw (low, high) (ap (λ ys. x ∷ ys) (bytes_of-unsigned_of xs hs))

unsigned_of-bytes_of : (size n : ℕ) → n < 256 ^ size → unsigned_of (bytes_of size n) ≡ n
unfolding bytes_of unsigned_of
unsigned_of-bytes_of zero n h = omega arith
unsigned_of-bytes_of (suc size) n h =
    omega (
      arith,
      pow-suc 256 size,
      unsigned_of-bytes_of size (n / 256) (omega (arith, pow-suc 256 size)),
    )

length-bytes_of : (size n : ℕ) → length (bytes_of size n) ≡ size
unfolding bytes_of
length-bytes_of zero n = refl
length-bytes_of (suc size) n = ap suc (length-bytes_of size (n / 256))

AreBytes-bytes_of : (size n : ℕ) → AreBytes (bytes_of size n)
unfolding bytes_of
AreBytes-bytes_of zero n = tt
AreBytes-bytes_of (suc size) n = (omega arith, AreBytes-bytes_of size (n / 256))

AreBytes-append : (xs ys : List ℕ) → AreBytes xs → AreBytes ys → AreBytes (xs ++ ys)
AreBytes-append [] ys h k = k
AreBytes-append (x ∷ xs) ys (h, hs) k = (h, AreBytes-append xs ys hs k)

AreBytes-reverse : (xs : List ℕ) → AreBytes xs → AreBytes (reverse xs)
AreBytes-reverse [] h = tt
AreBytes-reverse (x ∷ xs) (h, hs) =
    subst AreBytes (sym (reverse-cons x xs))
      (AreBytes-append (reverse xs) (x ∷ []) (AreBytes-reverse xs hs) (h, tt))

length-reverse : (xs : List ℕ) → length (reverse xs) ≡ length xs
length-reverse [] = refl
length-reverse (x ∷ xs) =
    ap length (reverse-cons x xs)
    ∙ omega (arith, length-append (reverse xs) (x ∷ []), length-reverse xs)

-- A number whose bytes are swapped has the bytes in reverse.
bytes_of-bswap : (size n : ℕ) → bytes_of size (bswap size n) ≡ reverse (bytes_of size n)
unfolding bswap
bytes_of-bswap size n =
    let swapped = reverse (bytes_of size n) in
    let same : length swapped ≡ size = length-reverse (bytes_of size n) ∙ length-bytes_of size n in
    ap (λ k. bytes_of k (unsigned_of swapped)) (sym same)
    ∙ bytes_of-unsigned_of swapped (AreBytes-reverse (bytes_of size n) (AreBytes-bytes_of size n))

swapped_twice : (size n : ℕ) → reverse (bytes_of size (bswap size n)) ≡ bytes_of size n
swapped_twice size n = ap reverse (bytes_of-bswap size n) ∙ reverse-reverse (bytes_of size n)

-- Whatever the host, a number stands in memory with its lowest byte first.
set_le-bytes_of :
    (order : ByteOrder) (width : Width) (n : ℕ)
    → set_le order width n ≡ bytes_of (width_size width) n
unfolding set_le remo_le native_bytes bytes_of
set_le-bytes_of little uint8 n = refl
set_le-bytes_of little uint16 n = refl
set_le-bytes_of little uint32 n = refl
set_le-bytes_of little uint64 n = refl
set_le-bytes_of big uint8 n = refl
set_le-bytes_of big uint16 n = swapped_twice 2 n
set_le-bytes_of big uint32 n = swapped_twice 4 n
set_le-bytes_of big uint64 n = swapped_twice 8 n

bswap-reverse :
    (size : ℕ) (bytes : List ℕ)
    → length bytes ≡ size
    → AreBytes bytes
    → bswap size (unsigned_of (reverse bytes)) ≡ unsigned_of bytes
unfolding bswap
bswap-reverse size bytes e h =
    let same : size ≡ length (reverse bytes) = sym (length-reverse bytes ∙ e) in
    ap unsigned_of (
      ap (λ k. reverse (bytes_of k (unsigned_of (reverse bytes)))) same
      ∙ ap reverse (bytes_of-unsigned_of (reverse bytes) (AreBytes-reverse bytes h))
      ∙ reverse-reverse bytes)

single : (bytes : List ℕ) → length bytes ≡ 1 → unsigned_of (reverse bytes) ≡ unsigned_of bytes
single [] e = absurd (omega arith)
single (x ∷ []) e = refl
single (x ∷ y ∷ ys) e = absurd (omega arith)

-- Whatever the host, the bytes are taken with the lowest one first.
get_le-unsigned_of :
    (order : ByteOrder) (width : Width) (bytes : List ℕ)
    → length bytes ≡ width_size width
    → AreBytes bytes
    → get_le order width bytes ≡ unsigned_of bytes
unfolding get_le remo_le native_value
get_le-unsigned_of little uint8 bytes e h = refl
get_le-unsigned_of little uint16 bytes e h = refl
get_le-unsigned_of little uint32 bytes e h = refl
get_le-unsigned_of little uint64 bytes e h = refl
get_le-unsigned_of big uint8 bytes e h = single bytes e
get_le-unsigned_of big uint16 bytes e h = bswap-reverse 2 bytes e h
get_le-unsigned_of big uint32 bytes e h = bswap-reverse 4 bytes e h
get_le-unsigned_of big uint64 bytes e h = bswap-reverse 8 bytes e h

whole :
    (from to : ByteOrder) (width : Width) (n : ℕ)
    → n < 256 ^ width_size width
    → get_le to width (set_le from width n) ≡ n
whole from to width n h =
    ap (get_le to width) (set_le-bytes_of from width n)
    ∙ get_le-unsigned_of to width (bytes_of (width_size width) n)
        (length-bytes_of (width_size width) n) (AreBytes-bytes_of (width_size width) n)
    ∙ unsigned_of-bytes_of (width_size width) n h

-- A number that fits into its type is written as the same bytes on every host, and read as the
-- same number on another one, aligned or not.
pub get_le-set_le :
    (from to : ByteOrder) (width : Width) (n : ℕ)
    → n < 256 ^ width_size width
    → (set_le from width n ≡ set_le to width n)
      × (get_le to width (set_le from width n) ≡ n)
      × (get_le_ua to width (set_le_ua from width n) ≡ n)
unfolding get_le_ua set_le_ua get_le set_le
get_le-set_le from to width n h =
    let read = whole from to width n h in
    (set_le-bytes_of from width n ∙ sym (set_le-bytes_of to width n), read, read)
