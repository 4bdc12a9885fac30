-- ===== src/Writer/Append.antt =====
-- What a writer's operation does to its buffer, stated by the bytes that it appends.
use libremo.Prelude.{ℕ, ◌≡◌, refl, sym, ap, ◌∙◌, false, List, [], ◌∷◌, ◌++◌, arith}
use libremo.Error.{Result, ok, error, fault, timeout, ◌>>=◌, >>=-assoc}
use libremo.Writer.{Writer, write_uint8}

-- The bytes one after the other.
unfoldable pub write_all : List ℕ → Writer → Result Writer
write_all [] w = ok w
write_all (x ∷ xs) w = do w' ← write_uint8 x w; write_all xs w'

-- The array size that a pointer leaves behind is no part of what is written.
abbrev pub clear : Writer → Writer
clear w = record w { arraysize = 0 }

abbrev pub forget : Result Writer → Result Writer
forget r = r >>= λ w. ok (clear w)

-- An operation that appends these bytes, or fails as appending them does.
abbrev pub Emits : (Writer → Result Writer) → List ℕ → Type 0
Emits f bytes = (w : Writer) → w.has_arraysize ≡ false → forget (f w) ≡ write_all bytes (clear w)

write_uint8-flag :
    (x : ℕ) (w w' : Writer) → write_uint8 x w ≡ ok w' → w'.has_arraysize ≡ w.has_arraysize
unfolding write_uint8
write_uint8-flag x w w' h = ground arith

write_all-flag :
    (xs : List ℕ) (w w' : Writer) → write_all xs w ≡ ok w' → w'.has_arraysize ≡ w.has_arraysize
unfolding write_all
write_all-flag [] w w' h = ground arith
write_all-flag (x ∷ xs) w w' h = go (λ w1. write_all-flag xs w1 w') (write_uint8 x w) refl h
  where
    go :
        ((w1 : Writer) → write_all xs w1 ≡ ok w' → w'.has_arraysize ≡ w1.has_arraysize)
        → (r : Result Writer) → write_uint8 x w ≡ r
        → (r >>= write_all xs) ≡ ok w'
        → w'.has_arraysize ≡ w.has_arraysize
    go ih (ok w1) e k = ih w1 k ∙ write_uint8-flag x w w1 e
    go ih (error c) e k = cc
    go ih fault e k = cc
    go ih timeout e k = cc

pub write_all-append :
    (xs ys : List ℕ) (w : Writer) → write_all (xs ++ ys) w ≡ (write_all xs w >>= write_all ys)
unfolding write_all
write_all-append [] ys w = refl
write_all-append (x ∷ xs) ys w =
    ap (λ k. write_uint8 x w >>= k) (λ i w'. write_all-append xs ys w' i)
    ∙ sym (>>=-assoc (write_uint8 x w) (write_all xs) (write_all ys))

pub write_uint8-Emits : (x : ℕ) → Emits (write_uint8 x) (x ∷ [])
unfolding write_uint8 write_all
write_uint8-Emits x w h = ground arith

pub ok-Emits : Emits (λ w. ok w) []
unfolding write_all
ok-Emits w h = refl

-- One operation after another.
pub >>=-Emits :
    (f g : Writer → Result Writer) (xs ys : List ℕ)
    → Emits f xs
    → Emits g ys
    → Emits (λ w. f w >>= g) (xs ++ ys)
>>=-Emits f g xs ys hf hg w h = go (f w) refl (hf w h) ∙ sym (write_all-append xs ys (clear w))
  where
    go :
        (r : Result Writer)
        → f w ≡ r
        → forget r ≡ write_all xs (clear w)
        → forget (r >>= g) ≡ (write_all xs (clear w) >>= write_all ys)
    go (ok w1) e k =
        hg w1 (write_all-flag xs (clear w) (clear w1) (sym k) ∙ h) ∙ ap (λ r. r >>= write_all ys) k
    go (error c) e k = ap (λ r. r >>= write_all ys) k
    go fault e k = ap (λ r. r >>= write_all ys) k
    go timeout e k = ap (λ r. r >>= write_all ys) k
