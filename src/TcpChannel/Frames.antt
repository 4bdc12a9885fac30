-- ===== src/TcpChannel/Frames.antt =====
-- The stream as a sequence of frames: the size of a payload in four bytes, then the payload.
use libremo.Prelude.{
  ℕ, ◌+◌, ◌^◌, ◌≤◌, ◌<◌, ◌≡◌, refl, ap, List, [], ◌∷◌, ◌++◌, leb, if◌then◌else◌, take, drop, length,
  Option, none, some, arith, length-append, take-length_append, drop-length_append, zero, suc,
  drop-add, true, Bool-cases, inl, inr, ◌⊎◌, leb→le,
}
use libremo.Channel.{uint32_at, complete_size, packet_incomplete}
use libremo.TcpChannel.{uint32_bytes}

-- The size of the frame at the beginning, 0 while it is incomplete.
unfoldable pub frame_size : List ℕ → ℕ
unfolding complete_size
frame_size bytes =
    if leb 4 (length bytes)
    then complete_size (uint32_at bytes) (length bytes)
    else packet_incomplete

-- The payload at the beginning, and what follows its frame.
unfoldable pub split_frame : List ℕ → Option (List ℕ × List ℕ)
split_frame bytes =
    if leb 4 (length bytes)
    then (if leb (uint32_at bytes + 4) (length bytes)
        then some (take (uint32_at bytes) (drop 4 bytes), drop (uint32_at bytes + 4) bytes)
        else none)
    else none

unfoldable pub frame : List ℕ → List ℕ
unfolding uint32_bytes
frame payload = uint32_bytes (length payload) ++ payload

pub uint32_at-bytes : (n : ℕ) (rest : List ℕ) → n < 2 ^ 32 → uint32_at (uint32_bytes n ++ rest) ≡ n
unfolding uint32_at uint32_bytes
uint32_at-bytes n rest h = omega arith

pub uint32_at-take : (n : ℕ) (xs : List ℕ) → 4 ≤ n → uint32_at (take n xs) ≡ uint32_at xs
unfolding uint32_at
uint32_at-take zero xs h = absurd (omega arith)
uint32_at-take (suc zero) xs h = absurd (omega arith)
uint32_at-take (suc (suc zero)) xs h = absurd (omega arith)
uint32_at-take (suc (suc (suc zero))) xs h = absurd (omega arith)
uint32_at-take (suc (suc (suc (suc n)))) [] h = refl
uint32_at-take (suc (suc (suc (suc n)))) (a ∷ []) h = refl
uint32_at-take (suc (suc (suc (suc n)))) (a ∷ b ∷ []) h = refl
uint32_at-take (suc (suc (suc (suc n)))) (a ∷ b ∷ c ∷ []) h = refl
uint32_at-take (suc (suc (suc (suc n)))) (a ∷ b ∷ c ∷ d ∷ xs) h = refl

pub drop_header_of : (n : ℕ) (xs : List ℕ) → drop (n + 4) xs ≡ drop n (drop 4 xs)
drop_header_of n xs = rw (← drop-add 4 n xs) (ap (λ k. drop k xs) (swap n))
  where
    swap : (k : ℕ) → k + 4 ≡ 4 + k
    swap k = omega arith

-- A whole frame at the beginning is split off.
pub split_frame-frame :
    (payload rest : List ℕ)
    → length payload < 2 ^ 32
    → split_frame (frame payload ++ rest) ≡ some (payload, rest)
unfolding split_frame frame
split_frame-frame payload rest h =
    let value : uint32_at (frame payload ++ rest) ≡ length payload =
      uint32_at-bytes (length payload) (payload ++ rest) h in
    let four : leb 4 (length (frame payload ++ rest)) ≡ true = ground arith in
    let whole : leb (length payload + 4) (length (frame payload ++ rest)) ≡ true =
      ground (arith, length-append payload rest) in
    rw
      (
        four,
        value,
        whole,
        take-length_append payload rest,
        drop_header_of (length payload) (frame payload ++ rest),
        drop-length_append payload rest,
      )
      refl

-- The two views of the beginning of a stream agree.
pub frame_cases :
    (bytes : List ℕ)
    → ((frame_size bytes ≡ 0) × (split_frame bytes ≡ none))
      ⊎ ((uint32_at bytes + 4 ≤ length bytes)
          × (frame_size bytes ≡ uint32_at bytes + 4)
          × (split_frame bytes
              ≡ some (take (uint32_at bytes) (drop 4 bytes), drop (uint32_at bytes + 4) bytes)))
unfolding frame_size split_frame
frame_cases bytes = elim (Bool-cases (leb 4 (length bytes))) [
  | inl four ↦ elim (Bool-cases (leb (uint32_at bytes + 4) (length bytes))) [
    | inl whole ↦ inr (
      leb→le (uint32_at bytes + 4) (length bytes) whole,
      rw (four, whole) refl,
      rw (four, whole) refl,
    )
    | inr part ↦ inl (rw (four, part) refl, rw (four, part) refl)
  ]
  | inr short ↦ inl (rw short refl, rw short refl)
]
