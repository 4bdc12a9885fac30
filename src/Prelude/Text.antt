-- ===== src/Prelude/Text.antt =====
-- Texts as lists of character codes, and numbers as decimal texts.
use Prim.Native.Char.{code}
use Prim.Native.String.{String}
use Prim.Native.Nat.{ℕ, zero, suc, ◌+◌, ◌/◌, ◌%◌}
use mathlib.Core.List.{List, [], ◌∷◌}
use mathlib.Core.Logic.{inl, inr}
use libremo.Prelude.Tests.{◌==◌, if◌then◌else◌, Bool-cases, ==_iff}
use Prim.Native.Nat.{◌-◌, ◌<◌, ◌≤◌}
use mathlib.Core.Path.{◌≡◌, refl, sym, ap, ◌∙◌}
use mathlib.Core.List.{◌++◌}
use native.Mathlib.Omega.{arith}
use libremo.Prelude.Lists.{All, length, replicate}

abbrev pub codes : String → List ℕ
codes String.[] = []
codes (String.◌∷◌ c s) = code c ∷ codes s

-- The last digits of a number, at most `rounds` of them, in front of a text.
digits : ℕ → ℕ → List ℕ → List ℕ
digits zero n rest = rest
digits (suc rounds) n rest =
    let more = digits rounds (n / 10) ((b'0' + n % 10) ∷ rest) in
    if n / 10 == 0 then (b'0' + n % 10) ∷ rest else more

-- A number of 64 bits has twenty digits at most.
unfoldable pub decimal : ℕ → List ℕ
unfolding digits
decimal n = digits 20 n []

digits-All_of :
    (P : ℕ → Type 0)
    → ((k : ℕ) → P (b'0' + k % 10))
    → (rounds n : ℕ) (rest : List ℕ) → All P rest
    → All P (digits rounds n rest)
unfolding digits
digits-All_of P h zero n rest k = k
digits-All_of P h (suc rounds) n rest k = elim (Bool-cases (n / 10 == 0)) [
  | inl e ↦ rw e (h n, k)
  | inr e ↦ rw e (digits-All_of P h rounds (n / 10) ((b'0' + n % 10) ∷ rest) (h n, k))
]

-- What holds of each digit holds of all characters of a decimal text.
pub decimal-All : (P : ℕ → Type 0) → ((k : ℕ) → P (b'0' + k % 10)) → (n : ℕ) → All P (decimal n)
unfolding decimal
decimal-All P h n = digits-All_of P h 20 n [] tt

-- The last `k` decimal digits of a number, zeros included, in front of a text.
abbrev pub last_digits : ℕ → ℕ → List ℕ → List ℕ
last_digits zero n rest = rest
last_digits (suc k) n rest = last_digits k (n / 10) ((b'0' + n % 10) ∷ rest)

-- The number has `k` digits at most.
abbrev pub Fits : ℕ → ℕ → Type 0
Fits zero n = n ≡ 0
Fits (suc k) n = Fits k (n / 10)

zeros-shift : (k : ℕ) (xs : List ℕ) → replicate k b'0' ++ b'0' ∷ xs ≡ b'0' ∷ replicate k b'0' ++ xs
zeros-shift zero xs = refl
zeros-shift (suc k) xs = ap (λ l. b'0' ∷ l) (zeros-shift k xs)

last_digits-zero : (k : ℕ) (xs : List ℕ) → last_digits k 0 xs ≡ replicate k b'0' ++ xs
last_digits-zero zero xs = refl
last_digits-zero (suc k) xs = last_digits-zero k (b'0' ∷ xs) ∙ zeros-shift k xs

padded : ℕ → List ℕ → List ℕ
padded size text = replicate (size - length text) b'0' ++ text

padded-cons :
    (k d : ℕ) (rest : List ℕ)
    → padded (suc k + length rest) (d ∷ rest) ≡ replicate k b'0' ++ d ∷ rest
unfolding padded
padded-cons k d rest =
    let size : suc k + length rest - suc (length rest) ≡ k = omega arith in
    ap (λ m. replicate m b'0' ++ d ∷ rest) size

digits-padded :
    (k rounds n : ℕ) (rest : List ℕ)
    → k ≤ rounds
    → Fits k n
    → 0 < k
    → padded (k + length rest) (digits rounds n rest) ≡ last_digits k n rest
unfolding digits
digits-padded zero rounds n rest h f p = absurd (omega arith)
digits-padded (suc k) zero n rest h f p = absurd (omega arith)
digits-padded (suc zero) (suc rounds) n rest h f p = rw f (padded-cons 0 (b'0' + n % 10) rest)
digits-padded (suc (suc k)) (suc rounds) n rest h f p = elim (Bool-cases (n / 10 == 0)) [
  | inl e ↦ rw e (
      padded-cons (suc k) (b'0' + n % 10) rest
      ∙ sym (last_digits-zero (suc k) ((b'0' + n % 10) ∷ rest))
      ∙ ap (λ m. last_digits (suc k) m ((b'0' + n % 10) ∷ rest)) (sym ((==_iff (n / 10) 0).0 e)))
  | inr e ↦
      let more : List ℕ = digits rounds (n / 10) ((b'0' + n % 10) ∷ rest) in
      rw e (
        ap (λ m. padded m more) (omega arith)
        ∙ digits-padded (suc k) rounds (n / 10) ((b'0' + n % 10) ∷ rest) (omega arith) f
            (omega arith))
]

-- A number below a million, filled up with zeros to six characters, is its six digits.
pub decimal-six :
    (n : ℕ)
    → n < 1000000
    → replicate (6 - length (decimal n)) b'0' ++ decimal n ≡ last_digits 6 n []
unfolding decimal padded
decimal-six n h = digits-padded 6 20 n [] (omega arith) (omega arith) (omega arith)
