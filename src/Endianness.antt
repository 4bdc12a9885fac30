-- ===== src/Endianness.antt =====
-- src/l0_system/endianness.h: numbers in memory, on a little-endian or big-endian host.
pub mod Hosts
use libremo.Prelude.{ℕ, zero, suc, ◌+◌, ◌*◌, ◌/◌, ◌%◌, List, [], ◌∷◌}
use mathlib.Core.List.{reverse}

-- __BYTE_ORDER__
pub data ByteOrder : Type 0 where
  little big : ByteOrder

-- The types that the functions are overloaded for.
pub data Width : Type 0 where
  uint8 uint16 uint32 uint64 : Width

abbrev pub width_size : Width → ℕ
width_size uint8 = 1
width_size uint16 = 2
width_size uint32 = 4
width_size uint64 = 8

-- The number that some bytes stand for, lowest first.
unfoldable pub unsigned_of : List ℕ → ℕ
unsigned_of [] = 0
unsigned_of (x ∷ xs) = x + 256 * unsigned_of xs

-- The lowest bytes of a number, lowest first.
unfoldable pub bytes_of : ℕ → ℕ → List ℕ
bytes_of zero n = []
bytes_of (suc size) n = n % 256 ∷ bytes_of size (n / 256)

-- How a host keeps a number of this many bytes in memory, and what it takes it for.
unfoldable pub native_bytes : ByteOrder → ℕ → ℕ → List ℕ
unfolding bytes_of
native_bytes little size n = bytes_of size n
native_bytes big size n = reverse (bytes_of size n)

unfoldable pub native_value : ByteOrder → List ℕ → ℕ
unfolding unsigned_of
native_value little bytes = unsigned_of bytes
native_value big bytes = unsigned_of (reverse bytes)

-- REMO_BSWAP16, REMO_BSWAP32 and REMO_BSWAP64
unfoldable pub bswap : ℕ → ℕ → ℕ
unfolding unsigned_of bytes_of
bswap size n = unsigned_of (reverse (bytes_of size n))

-- REMO_LE16, REMO_LE32 and REMO_LE64; a single byte is left as it is.
unfoldable pub remo_le : ByteOrder → Width → ℕ → ℕ
unfolding bswap
remo_le order uint8 n = n
remo_le little uint16 n = n
remo_le little uint32 n = n
remo_le little uint64 n = n
remo_le big uint16 n = bswap 2 n
remo_le big uint32 n = bswap 4 n
remo_le big uint64 n = bswap 8 n

-- get_le: the value of the bytes behind a pointer
unfoldable pub get_le : ByteOrder → Width → List ℕ → ℕ
unfolding remo_le native_value
get_le order width source = remo_le order width (native_value order source)

-- set_le: the bytes behind the pointer then
unfoldable pub set_le : ByteOrder → Width → ℕ → List ℕ
unfolding remo_le native_bytes
set_le order width value = native_bytes order (width_size width) (remo_le order width value)

-- get_le_ua and set_le_ua: memcpy() takes the bytes to a variable of the type, or from it.
unfoldable pub get_le_ua : ByteOrder → Width → List ℕ → ℕ
unfolding remo_le native_value
get_le_ua order width source = let x = native_value order source in remo_le order width x

unfoldable pub set_le_ua : ByteOrder → Width → ℕ → List ℕ
unfolding remo_le native_bytes
set_le_ua order width value =
    let swapped = remo_le order width value in native_bytes order (width_size width) swapped
