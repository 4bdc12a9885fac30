-- ===== src/Url/Search.antt =====
-- What a search in a string finds.
use libremo.Prelude.{
  ℕ, ◌+◌, ◌≡◌, refl, sym, ap, subst, Bool, true, false, ◌&&◌, [], ◌∷◌, ◌++◌, ◌==◌, Bool-cases, inl,
  inr, Option, none, some, drop, length, arith, ==_iff,
}
use libremo.Url.{Chars, find_in, starts_with, find_string}

-- The character is found where it stands first.
pub data Found (c i : ℕ) : Chars → Option ℕ → Type 0 where
  nowhere : (s : Chars) → Found c i s none
  somewhere : (pre post : Chars) (r : ℕ) → r ≡ i + length pre → Found c i (pre ++ c ∷ post) (some r)

further : (c i x : ℕ) (s : Chars) (o : Option ℕ) → Found c (i + 1) s o → Found c i (x ∷ s) o
further c i x s none (nowhere _) = nowhere (x ∷ s)
further c i x _ (some r) (somewhere pre post _ e) = somewhere (x ∷ pre) post r (omega arith)

pub find_in-Found : (c i : ℕ) (s : Chars) → Found c i s (find_in c i s)
unfolding find_in
find_in-Found c i [] = nowhere []
find_in-Found c i (x ∷ xs) = elim (Bool-cases (x == c)) [
  | inl e ↦
      let same : x ≡ c = (==_iff x c).0 e in
      rw e (subst (λ d. Found c i (d ∷ xs) (some i)) (sym same) (somewhere [] xs i (omega arith)))
  | inr e ↦ rw e (further c i x xs (find_in c (i + 1) xs) (find_in-Found c (i + 1) xs))
]

both : (a b : Bool) → (a && b) ≡ true → (a ≡ true) × (b ≡ true)
both true true e = (refl, refl)
both true false e = absurd (ground arith)
both false b e = absurd (ground arith)

starts_with-split : (pat s : Chars) → starts_with pat s ≡ true → s ≡ pat ++ drop (length pat) s
unfolding starts_with
starts_with-split [] s e = refl
starts_with-split (c ∷ cs) [] e = absurd (ground arith)
starts_with-split (c ∷ cs) (x ∷ xs) e =
    let (g, h) = both (x == c) (starts_with cs xs) e in
    rw ((==_iff x c).0 g) (ap (λ l. c ∷ l) (starts_with-split cs xs h))

-- The string is found somewhere, or there is none.
pub data FoundString (pat : Chars) (i : ℕ) : Chars → Option ℕ → Type 0 where
  absent : (s : Chars) → FoundString pat i s none
  present :
      (pre post : Chars) (r : ℕ)
      → r ≡ i + length pre
      → FoundString pat i (pre ++ (pat ++ post)) (some r)

further_on :
    (pat : Chars) (i x : ℕ) (s : Chars) (o : Option ℕ)
    → FoundString pat (i + 1) s o
    → FoundString pat i (x ∷ s) o
further_on pat i x s none (absent _) = absent (x ∷ s)
further_on pat i x _ (some r) (present pre post _ e) = present (x ∷ pre) post r (omega arith)

found_here : (pat s : Chars) (i : ℕ) → starts_with pat s ≡ true → FoundString pat i s (some i)
found_here pat s i e =
    subst (λ t. FoundString pat i t (some i)) (sym (starts_with-split pat s e))
      (present [] (drop (length pat) s) i (omega arith))

pub find_string-Found :
    (pat : Chars) (i : ℕ) (s : Chars) → FoundString pat i s (find_string pat i s)
unfolding find_string
find_string-Found pat i [] = elim (Bool-cases (starts_with pat [])) [
  | inl e ↦ rw e (found_here pat [] i e)
  | inr e ↦ rw e (absent [])
]
find_string-Found pat i (x ∷ xs) = elim (Bool-cases (starts_with pat (x ∷ xs))) [
  | inl e ↦ rw e (found_here pat (x ∷ xs) i e)
  | inr e ↦
      rw e (further_on pat i x xs (find_string pat (i + 1) xs) (find_string-Found pat (i + 1) xs))
]
