-- ===== src/Reader/Lossless.antt =====
-- Which scalars come back as they were written: the bytes that stay off the wire are zero.
use libremo.Prelude.{
  ℕ, zero, suc, ◌-◌, ◌≡◌, refl, sym, ap, ◌∙◌, Bool, true, false, not, List, [], ◌∷◌, ◌++◌, arith,
  length, drop, take, ◌==◌, take-append-drop, length-drop,
}
use libremo.Types.{BaseId, type_double, type_float, size_of}
use libremo.Reader.{zeros}
use libremo.Writer.{all_zero, float_zero, is_zero}
use libremo.Writer.WireSize.{significant, is_zero-drop-significant}

abbrev pub ends_in : ℕ → List ℕ → Bool
ends_in x [] = false
ends_in x (y ∷ []) = y == x
ends_in x (y ∷ z ∷ zs) = ends_in x (z ∷ zs)

-- A float or double with the last byte 0x80 is negative and tiny, or the negative zero.
abbrev pub is_lossless : BaseId → List ℕ → Bool
is_lossless type_double bytes = not (ends_in 0x80 bytes)
is_lossless type_float bytes = not (ends_in 0x80 bytes)
is_lossless _ bytes = true

ends_in-drop : (k x : ℕ) (xs : List ℕ) → ends_in x xs ≡ false → ends_in x (drop k xs) ≡ false
ends_in-drop zero x xs h = h
ends_in-drop (suc k) x [] h = refl
ends_in-drop (suc k) x (y ∷ []) h = ends_in-drop k x [] refl
ends_in-drop (suc k) x (y ∷ z ∷ zs) h = ends_in-drop k x (z ∷ zs) h

all_zero_of_float :
    (xs : List ℕ) → float_zero xs ≡ true → ends_in 0x80 xs ≡ false → all_zero xs ≡ true
unfolding float_zero all_zero
all_zero_of_float [] h e = refl
all_zero_of_float (x ∷ []) h e = ground arith
all_zero_of_float (x ∷ y ∷ ys) h e = ground (arith, all_zero_of_float (y ∷ ys))

tail_float :
    (k : ℕ) (bytes : List ℕ)
    → float_zero (drop k bytes) ≡ true
    → not (ends_in 0x80 bytes) ≡ true
    → all_zero (drop k bytes) ≡ true
tail_float k bytes z l =
    all_zero_of_float (drop k bytes) z (ends_in-drop k 0x80 bytes (ground arith))

tail_zero :
    (b : BaseId) (k : ℕ) (bytes : List ℕ)
    → is_zero b (drop k bytes) ≡ true
    → is_lossless b bytes ≡ true
    → all_zero (drop k bytes) ≡ true
unfolding is_zero
tail_zero type_double k bytes z l = tail_float k bytes z l
tail_zero type_float k bytes z l = tail_float k bytes z l
tail_zero _ k bytes z l = z

zeros_of_all_zero : (xs : List ℕ) → all_zero xs ≡ true → zeros (length xs) ≡ xs
unfolding all_zero zeros
zeros_of_all_zero [] h = refl
zeros_of_all_zero (x ∷ xs) h = ground (arith, zeros_of_all_zero xs)

drop-zeros : (k n : ℕ) → drop k (zeros n) ≡ zeros (n - k)
unfolding zeros
drop-zeros zero n = ap zeros (lem n)
  where
    lem : (m : ℕ) → m ≡ m - 0
    lem m = omega arith
drop-zeros (suc k) zero = ap zeros (lem k)
  where
    lem : (m : ℕ) → 0 ≡ 0 - suc m
    lem m = omega arith
drop-zeros (suc k) (suc n) = drop-zeros k n ∙ ap zeros (lem n k)
  where
    lem : (a c : ℕ) → a - c ≡ suc a - suc c
    lem a c = omega arith

-- The bytes on the wire over a zeroed value are the value.
pub restored :
    (b : BaseId) (bytes : List ℕ)
    → length bytes ≡ size_of b
    → is_lossless b bytes ≡ true
    → take (significant b bytes) bytes ++ drop (significant b bytes) (zeros (size_of b)) ≡ bytes
restored b bytes e l =
    let k = significant b bytes in
    let tail_eq : drop k (zeros (size_of b)) ≡ drop k bytes =
      drop-zeros k (size_of b)
      ∙ ap zeros (ap (λ n. n - k) (sym e) ∙ sym (length-drop k bytes))
      ∙ zeros_of_all_zero (drop k bytes)
          (tail_zero b k bytes (is_zero-drop-significant b bytes) l) in
    ap (λ ys. take k bytes ++ ys) tail_eq ∙ take-append-drop k bytes
