-- ===== src/Prelude/Sequence.antt =====
-- Sequences of addresses.
use Prim.Native.Nat.{ℕ}
use mathlib.Core.Path.{◌≡◌, refl, ap, ◌∙◌, subst}
use mathlib.Core.Logic.{inl, inr}
use mathlib.Core.Bool.{Bool, true, false}
use mathlib.Core.Option.{Option, none, some}
use mathlib.Core.List.{List, [], ◌∷◌, ◌++◌}
use native.Mathlib.Omega.{arith}
use libremo.Prelude.Tests.{◌==◌, if◌then◌else◌, Bool-cases, ==_refl, ==_iff}

abbrev pub has : ℕ → List ℕ → Bool
has a [] = false
has a (b ∷ bs) = if b == a then true else has a bs

-- The sequence without the first occurrence.
abbrev pub without : ℕ → List ℕ → List ℕ
without a [] = []
without a (b ∷ bs) = if b == a then bs else b ∷ without a bs

abbrev pub last_of : List ℕ → Option ℕ
last_of [] = none
last_of (a ∷ []) = some a
last_of (a ∷ b ∷ bs) = last_of (b ∷ bs)

abbrev pub Distinct : List ℕ → Type 0
Distinct [] = Unit
Distinct (a ∷ bs) = (has a bs ≡ false) × Distinct bs

value : ℕ → Option ℕ → ℕ
value b none = b
value b (some a) = a

-- The last item is one of them.
pub has-last : (a : ℕ) (bs : List ℕ) → last_of bs ≡ some a → has a bs ≡ true
unfolding value
has-last a [] e = absurd (ground arith)
has-last a (b ∷ []) e = let k : b ≡ a = ap (value b) e in rw (k, ==_refl a) refl
has-last a (b ∷ c ∷ bs) e = elim (Bool-cases (b == a)) [
  | inl k ↦ rw k refl
  | inr k ↦ rw k (has-last a (c ∷ bs) e)
]

pub last_of-snoc : (a : ℕ) (bs : List ℕ) → last_of (bs ++ a ∷ []) ≡ some a
last_of-snoc a [] = refl
last_of-snoc a (b ∷ []) = refl
last_of-snoc a (b ∷ c ∷ bs) = last_of-snoc a (c ∷ bs)

pub has-snoc : (a b : ℕ) (bs : List ℕ) → has a (bs ++ b ∷ []) ≡ (if has a bs then true else b == a)
has-snoc a b [] = elim (Bool-cases (b == a)) [ inl k ↦ rw k refl | inr k ↦ rw k refl ]
has-snoc a b (c ∷ bs) = elim (Bool-cases (c == a)) [
  | inl k ↦ rw k refl
  | inr k ↦ rw k (has-snoc a b bs)
]

pub has-not_first :
    (a b : ℕ) (bs : List ℕ) → has a (b ∷ bs) ≡ false → ((b == a) ≡ false) × (has a bs ≡ false)
has-not_first a b bs e = elim (Bool-cases (b == a)) [
  | inl k ↦
      let f : true ≡ false = subst (λ t. (if t then true else has a bs) ≡ false) k e in
      absurd (ground arith)
  | inr k ↦ (k, subst (λ t. (if t then true else has a bs) ≡ false) k e)
]

other_way : (a b : ℕ) → (b == a) ≡ false → (a == b) ≡ false
other_way a b e = ground arith

pub Distinct-snoc : (a : ℕ) (bs : List ℕ) → has a bs ≡ false → Distinct bs → Distinct (bs ++ a ∷ [])
Distinct-snoc a [] e d = (refl, tt)
Distinct-snoc a (b ∷ bs) e (f, d) =
    let (g, h) = has-not_first a b bs e in
    (has-snoc b a bs ∙ rw (f, other_way a b g) refl, Distinct-snoc a bs h d)

pub has-without : (a : ℕ) (bs : List ℕ) → Distinct bs → has a (without a bs) ≡ false
has-without a [] d = refl
has-without a (b ∷ bs) (f, d) = elim (Bool-cases (b == a)) [
  | inl k ↦ rw k (subst (λ c. has c bs ≡ false) ((==_iff b a).0 k) f)
  | inr k ↦ rw (k, k) (has-without a bs d)
]

pub has-without_of : (a c : ℕ) (bs : List ℕ) → has c bs ≡ false → has c (without a bs) ≡ false
has-without_of a c [] e = refl
has-without_of a c (b ∷ bs) e =
    let (g, h) = has-not_first c b bs e in
    elim (Bool-cases (b == a)) [ inl k ↦ rw k h | inr k ↦ rw (k, g) (has-without_of a c bs h) ]

pub Distinct-without : (a : ℕ) (bs : List ℕ) → Distinct bs → Distinct (without a bs)
Distinct-without a [] d = tt
Distinct-without a (b ∷ bs) (f, d) = elim (Bool-cases (b == a)) [
  | inl k ↦ rw k d
  | inr k ↦ rw k (has-without_of a b bs f, Distinct-without a bs d)
]
