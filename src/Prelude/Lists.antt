-- ===== src/Prelude/Lists.antt =====
-- Lists measured and indexed by native numbers, under the library's names.
use Prim.Native.Nat.{ℕ, zero, suc, ◌+◌, ◌-◌, ◌≤◌, ◌<◌, min}
use mathlib.Core.Path.{◌≡◌, refl, ap, sym, ◌∙◌}
use mathlib.Core.List.{List, [], ◌∷◌, ◌++◌}
use mathlib.Core.Option.{Option, none, some}
use native.Mathlib.Omega.{arith}

module _ {ℓ} {A : Type ℓ} where
  abbrev pub length : List A → ℕ
  length [] = 0
  length (x ∷ xs) = suc (length xs)

  abbrev pub get_elem? : List A → ℕ → Option A
  get_elem? [] i = none
  get_elem? (x ∷ xs) zero = some x
  get_elem? (x ∷ xs) (suc i) = get_elem? xs i

  -- A write out of bounds changes nothing.
  abbrev pub set : List A → ℕ → A → List A
  set [] i v = []
  set (x ∷ xs) zero v = v ∷ xs
  set (x ∷ xs) (suc i) v = x ∷ set xs i v

  abbrev pub take : ℕ → List A → List A
  take zero xs = []
  take (suc n) [] = []
  take (suc n) (x ∷ xs) = x ∷ take n xs

  abbrev pub drop : ℕ → List A → List A
  drop zero xs = xs
  drop (suc n) [] = []
  drop (suc n) (x ∷ xs) = drop n xs

  abbrev pub replicate : ℕ → A → List A
  replicate zero a = []
  replicate (suc n) a = a ∷ replicate n a

  abbrev pub All {κ} : (A → Type κ) → List A → Type κ
  All P [] = Unit {κ}
  All P (x ∷ xs) = P x × All P xs

module _ {ℓ} {A : Type ℓ} where
  pub length-append : (xs ys : List A) → length (xs ++ ys) ≡ length xs + length ys
  length-append [] ys = omega arith
  length-append (x ∷ xs) ys = omega (arith, length-append xs ys)

  pub length-set : (xs : List A) (i : ℕ) (v : A) → length (set xs i v) ≡ length xs
  length-set [] i v = refl
  length-set (x ∷ xs) zero v = refl
  length-set (x ∷ xs) (suc i) v = ap suc (length-set xs i v)

  pub length-take : (n : ℕ) (xs : List A) → length (take n xs) ≡ min n (length xs)
  length-take zero xs = omega arith
  length-take (suc n) [] = omega arith
  length-take (suc n) (x ∷ xs) = omega (arith, length-take n xs)

  pub length-drop : (n : ℕ) (xs : List A) → length (drop n xs) ≡ length xs - n
  length-drop zero xs = omega arith
  length-drop (suc n) [] = omega arith
  length-drop (suc n) (x ∷ xs) = omega (arith, length-drop n xs)

  pub length-replicate : (n : ℕ) (a : A) → length (replicate n a) ≡ n
  length-replicate zero a = refl
  length-replicate (suc n) a = ap suc (length-replicate n a)

  pub take-append-drop : (n : ℕ) (xs : List A) → take n xs ++ drop n xs ≡ xs
  take-append-drop zero xs = refl
  take-append-drop (suc n) [] = refl
  take-append-drop (suc n) (x ∷ xs) = rw (take-append-drop n xs)

  pub take-length_append : (xs ys : List A) → take (length xs) (xs ++ ys) ≡ xs
  take-length_append [] ys = refl
  take-length_append (x ∷ xs) ys = rw (take-length_append xs ys)

  pub drop-length_append : (xs ys : List A) → drop (length xs) (xs ++ ys) ≡ ys
  drop-length_append [] ys = refl
  drop-length_append (x ∷ xs) ys = drop-length_append xs ys

  pub take_all : (n : ℕ) (xs : List A) → length xs ≤ n → take n xs ≡ xs
  take_all zero [] h = refl
  take_all zero (x ∷ xs) h = absurd (omega arith)
  take_all (suc n) [] h = refl
  take_all (suc n) (x ∷ xs) h = rw (take_all n xs (omega arith))

  -- Taking one more element after writing it.
  pub take-suc_of_set :
      (n : ℕ) (xs : List A) (v : A)
      → n < length xs
      → take (suc n) (set xs n v) ≡ take n xs ++ (v ∷ [])
  take-suc_of_set n [] v h = absurd (omega arith)
  take-suc_of_set zero (x ∷ xs) v h = refl
  take-suc_of_set (suc n) (x ∷ xs) v h = ap (λ ys. x ∷ ys) (take-suc_of_set n xs v (omega arith))

  -- A write at `n + i` is a write at `i` of what stands behind the first `n` elements.
  pub drop-set_add :
      (n i : ℕ) (xs : List A) (v : A) → drop n (set xs (n + i) v) ≡ set (drop n xs) i v
  drop-set_add zero i xs v = rw (zero-add_lem i)
    where
      zero-add_lem : (k : ℕ) → 0 + k ≡ k
      zero-add_lem k = omega arith
  drop-set_add (suc n) i [] v = refl
  drop-set_add (suc n) i (x ∷ xs) v = rw (shift n i) (drop-set_add n i xs v)
    where
      shift : (a b : ℕ) → suc a + b ≡ suc (a + b)
      shift a b = omega arith

  pub take-set_le : (n i : ℕ) (xs : List A) (v : A) → n ≤ i → take n (set xs i v) ≡ take n xs
  take-set_le zero i xs v h = refl
  take-set_le (suc n) i [] v h = refl
  take-set_le (suc n) zero (x ∷ xs) v h = absurd (omega arith)
  take-set_le (suc n) (suc i) (x ∷ xs) v h = ap (λ ys. x ∷ ys) (take-set_le n i xs v (omega arith))

  pub drop-suc_of_drop :
      (n : ℕ) (xs : List A) (y : A) (ys : List A) → drop n xs ≡ y ∷ ys → drop (n + 1) xs ≡ ys
  drop-suc_of_drop zero [] y ys h = cc
  drop-suc_of_drop zero (x ∷ xs) y ys h = ground arith
  drop-suc_of_drop (suc n) [] y ys h = cc
  drop-suc_of_drop (suc n) (x ∷ xs) y ys h = rw (shift n) (drop-suc_of_drop n xs y ys h)
    where
      shift : (a : ℕ) → suc a + 1 ≡ suc (a + 1)
      shift a = omega arith

  pub get_elem?-drop :
      (n : ℕ) (xs : List A) (y : A) (ys : List A) → drop n xs ≡ y ∷ ys → get_elem? xs n ≡ some y
  get_elem?-drop zero [] y ys h = cc
  get_elem?-drop zero (x ∷ xs) y ys h = ground arith
  get_elem?-drop (suc n) [] y ys h = cc
  get_elem?-drop (suc n) (x ∷ xs) y ys h = get_elem?-drop n xs y ys h

  pub drop-nil : (n : ℕ) → drop {A = A} n [] ≡ []
  drop-nil zero = refl
  drop-nil (suc n) = refl

  pub drop-add : (m n : ℕ) (xs : List A) → drop (m + n) xs ≡ drop n (drop m xs)
  drop-add zero n xs = rw (zero-add_lem n)
    where
      zero-add_lem : (k : ℕ) → 0 + k ≡ k
      zero-add_lem k = omega arith
  drop-add (suc m) n [] = rw (shift m n, drop-nil n)
    where
      shift : (a b : ℕ) → suc a + b ≡ suc (a + b)
      shift a b = omega arith
  drop-add (suc m) n (x ∷ xs) = rw (shift m n) (drop-add m n xs)
    where
      shift : (a b : ℕ) → suc a + b ≡ suc (a + b)
      shift a b = omega arith

module _ {ℓ} {A : Type ℓ} where
  pub set-length_append :
      (xs : List A) (y : A) (ys : List A) (v : A)
      → set (xs ++ (y ∷ ys)) (length xs) v ≡ xs ++ (v ∷ ys)
  set-length_append [] y ys v = refl
  set-length_append (x ∷ xs) y ys v = ap (λ zs. x ∷ zs) (set-length_append xs y ys v)

  pub get_elem?-take :
      (n i : ℕ) (xs : List A) (y : A) → get_elem? (take n xs) i ≡ some y → get_elem? xs i ≡ some y
  get_elem?-take zero i xs y h = cc
  get_elem?-take (suc n) i [] y h = h
  get_elem?-take (suc n) zero (x ∷ xs) y h = h
  get_elem?-take (suc n) (suc i) (x ∷ xs) y h = get_elem?-take n i xs y h

  pub get_elem?-drop_add : (n i : ℕ) (xs : List A) → get_elem? (drop n xs) i ≡ get_elem? xs (n + i)
  get_elem?-drop_add zero i xs = rw (zero-add_lem i)
    where
      zero-add_lem : (k : ℕ) → 0 + k ≡ k
      zero-add_lem k = omega arith
  get_elem?-drop_add (suc n) i [] = refl
  get_elem?-drop_add (suc n) i (x ∷ xs) = rw (shift n i) (get_elem?-drop_add n i xs)
    where
      shift : (a b : ℕ) → suc a + b ≡ suc (a + b)
      shift a b = omega arith

  pub take-take_le : (m n : ℕ) (xs : List A) → m ≤ n → take m (take n xs) ≡ take m xs
  take-take_le zero n xs h = refl
  take-take_le (suc m) zero xs h = absurd (omega arith)
  take-take_le (suc m) (suc n) [] h = refl
  take-take_le (suc m) (suc n) (x ∷ xs) h = ap (λ zs. x ∷ zs) (take-take_le m n xs (omega arith))

  -- Inside a window, taking and dropping need not look at its end.
  pub take-drop-take :
      (k o s : ℕ) (xs : List A) → o + k ≤ s → take k (drop o (take s xs)) ≡ take k (drop o xs)
  take-drop-take k zero s xs h = take-take_le k s xs (omega arith)
  take-drop-take k (suc o) zero xs h = absurd (omega arith)
  take-drop-take k (suc o) (suc s) [] h = refl
  take-drop-take k (suc o) (suc s) (x ∷ xs) h = take-drop-take k o s xs (omega arith)

  pub drop_all : (n : ℕ) (xs : List A) → length xs ≤ n → drop n xs ≡ []
  drop_all zero [] h = refl
  drop_all zero (x ∷ xs) h = absurd (omega arith)
  drop_all (suc n) [] h = refl
  drop_all (suc n) (x ∷ xs) h = drop_all n xs (omega arith)

  take-nil : (n : ℕ) → take {A = A} n [] ≡ []
  take-nil zero = refl
  take-nil (suc n) = refl

  pub drop-take : (n l : ℕ) (xs : List A) → drop n (take l xs) ≡ take (l - n) (drop n xs)
  drop-take zero l xs = ap (λ k. take k xs) (less l)
    where
      less : (k : ℕ) → k ≡ k - 0
      less k = omega arith
  drop-take (suc n) zero xs = ap (λ k. take k (drop (suc n) xs)) (less n)
    where
      less : (k : ℕ) → 0 ≡ 0 - suc k
      less k = omega arith
  drop-take (suc n) (suc l) [] = sym (take-nil (suc l - suc n))
  drop-take (suc n) (suc l) (x ∷ xs) = drop-take n l xs ∙ ap (λ k. take k (drop n xs)) (less l n)
    where
      less : (a b : ℕ) → a - b ≡ suc a - suc b
      less a b = omega arith
