-- ===== src/Writer/WireSize.antt =====
-- The first loop of `write_value(const T&)`: how many bytes of a scalar go on the wire.
use libremo.Prelude.{
  ℕ, zero, suc, ◌+◌, ◌≤◌, ◌≡◌, refl, ap, ◌∙◌, true, List, [], ◌∷◌, ◌++◌, arith, length, drop,
  replicate, set, if◌then◌else◌, Bool-cases, inl, inr,
}
use libremo.Types.{BaseId, type_double, type_float, size_of}
use libremo.Writer.{all_zero, float_zero, is_zero, wire_loop}
use native.Mathlib.Numerals.{add-one}

-- The bytes up to where the rest stands for zero.
unfoldable pub significant : BaseId → List ℕ → ℕ
significant b [] = 0
significant b (x ∷ xs) = if is_zero b (x ∷ xs) then 0 else suc (significant b xs)

all_zero-zeros : (i : ℕ) (ys : List ℕ) → all_zero (replicate i 0 ++ ys) ≡ all_zero ys
unfolding all_zero
all_zero-zeros zero ys = refl
all_zero-zeros (suc i) ys = all_zero-zeros i ys

float_zero-zeros :
    (i y : ℕ) (ys : List ℕ) → float_zero (replicate i 0 ++ (y ∷ ys)) ≡ float_zero (y ∷ ys)
unfolding float_zero
float_zero-zeros zero y ys = refl
float_zero-zeros (suc zero) y ys = refl
float_zero-zeros (suc (suc i)) y ys = float_zero-zeros (suc i) y ys

is_zero-zeros :
    (b : BaseId) (i y : ℕ) (ys : List ℕ)
    → is_zero b (replicate i 0 ++ (y ∷ ys)) ≡ is_zero b (y ∷ ys)
unfolding is_zero
is_zero-zeros type_double i y ys = float_zero-zeros i y ys
is_zero-zeros type_float i y ys = float_zero-zeros i y ys
is_zero-zeros _ i y ys = all_zero-zeros i (y ∷ ys)

set-zeros :
    (i y : ℕ) (ys : List ℕ) → set (replicate i 0 ++ (y ∷ ys)) i 0 ≡ replicate (suc i) 0 ++ ys
set-zeros zero y ys = refl
set-zeros (suc i) y ys = ap (λ zs. 0 ∷ zs) (set-zeros i y ys)

wire_loop-zeros :
    (b : BaseId) (i k : ℕ) (ys : List ℕ)
    → wire_loop b (length ys) i (replicate i 0 ++ ys) k ≡ k + significant b ys
unfolding wire_loop significant
wire_loop-zeros b i k [] = omega arith
wire_loop-zeros b i k (y ∷ ys) =
    rw (is_zero-zeros b i y ys, set-zeros i y ys, add-one i)
      (elim (Bool-cases (is_zero b (y ∷ ys))) [
        | inl e ↦ rw e (omega arith)
        | inr e ↦ rw e (omega (arith, wire_loop-zeros b (suc i) (k + 1) ys))
      ])

-- The loop counts the significant bytes.
pub wire_loop-eq-significant :
    (b : BaseId) (value : List ℕ)
    → length value ≡ size_of b
    → wire_loop b (size_of b) 0 value 0 ≡ significant b value
wire_loop-eq-significant b value e = rw (← e) (wire_loop-zeros b 0 0 value ∙ lem _)
  where
    lem : (n : ℕ) → 0 + n ≡ n
    lem n = omega arith

pub significant-le : (b : BaseId) (xs : List ℕ) → significant b xs ≤ length xs
unfolding significant
significant-le b [] = omega arith
significant-le b (x ∷ xs) = ground (arith, significant-le b xs)

is_zero-nil : (b : BaseId) → is_zero b [] ≡ true
unfolding is_zero
is_zero-nil type_double = refl
is_zero-nil _ = refl

-- What is not written stands for zero.
pub is_zero-drop-significant :
    (b : BaseId) (xs : List ℕ) → is_zero b (drop (significant b xs) xs) ≡ true
unfolding significant
is_zero-drop-significant b [] = is_zero-nil b
is_zero-drop-significant b (x ∷ xs) = elim (Bool-cases (is_zero b (x ∷ xs))) [
  | inl e ↦ rw e e
  | inr e ↦ rw e (is_zero-drop-significant b xs)
]
