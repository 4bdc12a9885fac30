-- ===== src/Rpc/Registry/Names.antt =====
-- The map from names to addresses.
use libremo.Prelude.{
  ℕ, ◌≡◌, ◌≢◌, refl, sym, subst, ◌∙◌, ◌&&◌, true, false, List, [], ◌∷◌, ◌==◌, ==_refl, ==_iff, none,
  some, Bool-cases, inl, inr,
}
use libremo.Rpc.Registry.{same_name, lookup, erase}

pub same_name_refl : (xs : List ℕ) → same_name xs xs ≡ true
same_name_refl [] = refl
same_name_refl (x ∷ xs) = rw (==_refl x) (same_name_refl xs)

false_ne_true : false ≢ true
false_ne_true h = cc

pub same_name-eq : (xs ys : List ℕ) → same_name xs ys ≡ true → xs ≡ ys
same_name-eq [] [] h = refl
same_name-eq [] (y ∷ ys) h = cc
same_name-eq (x ∷ xs) [] h = cc
same_name-eq (x ∷ xs) (y ∷ ys) h = elim (Bool-cases (x == y)) [
  | inl e ↦
      let same : x ≡ y = (==_iff x y).0 e in
      let rest : xs ≡ ys = same_name-eq xs ys (subst (λ b. (b && same_name xs ys) ≡ true) e h) in cc
  | inr e ↦ absurd (false_ne_true (subst (λ b. (b && same_name xs ys) ≡ true) e h))
]

pub same_name-differ : (xs ys : List ℕ) → xs ≢ ys → same_name xs ys ≡ false
same_name-differ xs ys h = elim (Bool-cases (same_name xs ys)) [
  | inl e ↦ absurd (h (same_name-eq xs ys e))
  | inr e ↦ e
]

pub lookup-cons_same :
    (name : List ℕ) (p : ℕ) (items : List (List ℕ × ℕ)) → lookup name ((name, p) ∷ items) ≡ some p
unfolding lookup
lookup-cons_same name p items = rw (same_name_refl name) refl

pub lookup-cons_other :
    (name other : List ℕ) (p : ℕ) (items : List (List ℕ × ℕ))
    → name ≢ other
    → lookup name ((other, p) ∷ items) ≡ lookup name items
unfolding lookup
lookup-cons_other name other p items h = rw (same_name-differ name other h) refl

pub lookup-erase_same :
    (name : List ℕ) (items : List (List ℕ × ℕ)) → lookup name (erase name items) ≡ none
unfolding lookup erase
lookup-erase_same name [] = refl
lookup-erase_same name ((n, p) ∷ rest) = elim (Bool-cases (same_name name n)) [
  | inl e ↦ rw e (lookup-erase_same name rest)
  | inr e ↦ rw (e, e) (lookup-erase_same name rest)
]

pub lookup-erase_other :
    (name other : List ℕ) (items : List (List ℕ × ℕ))
    → name ≢ other
    → lookup name (erase other items) ≡ lookup name items
unfolding lookup erase
lookup-erase_other name other [] h = refl
lookup-erase_other name other ((n, p) ∷ rest) h = elim (Bool-cases (same_name other n)) [
  | inl e ↦
      let differ : name ≢ n = λ g. h (g ∙ sym (same_name-eq other n e)) in
      rw (e, same_name-differ name n differ) (lookup-erase_other name other rest h)
  | inr e ↦ elim (Bool-cases (same_name name n)) [
    | inl f ↦ rw (e, f) refl
    | inr f ↦ rw (e, f) (lookup-erase_other name other rest h)
  ]
]
