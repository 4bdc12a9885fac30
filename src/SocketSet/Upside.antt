-- ===== src/SocketSet/Upside.antt =====
-- Lists from their last items on, as a loop over falling indices meets them.
use libremo.Prelude.{
  ℕ, suc, ◌+◌, ◌≡◌, refl, sym, ap, ◌∙◌, false, List, [], ◌∷◌, ◌++◌, length, get_elem?, has,
  has-not_first, arith,
}
use libremo.SocketSet.{erase, index_of}

-- A list from its last item on, in front of another.
abbrev pub upside {ℓ} : {A : Type ℓ} → List A → List A → List A
upside [] ys = ys
upside (x ∷ xs) ys = upside xs (x ∷ ys)

module _ {ℓ} {A : Type ℓ} where
  pub get-upside_from :
      (xs : List A) (k : ℕ) (ys : List A)
      → get_elem? (upside xs ys) (length xs + k) ≡ get_elem? ys k
  get-upside_from [] k ys = let z : 0 + k ≡ k = omega arith in ap (λ n. get_elem? ys n) z
  get-upside_from (x ∷ xs) k ys =
      let z : length (x ∷ xs) + k ≡ length xs + suc k = omega arith in
      ap (λ n. get_elem? (upside xs (x ∷ ys)) n) z ∙ get-upside_from xs (suc k) (x ∷ ys)

  pub append-upside : (xs ys zs : List A) → upside xs ys ++ zs ≡ upside xs (ys ++ zs)
  append-upside [] ys zs = refl
  append-upside (x ∷ xs) ys zs = append-upside xs (x ∷ ys) zs

  pub erase-upside_from :
      (xs : List A) (k : ℕ) (ys : List A)
      → erase (length xs + k) (upside xs ys) ≡ upside xs (erase k ys)
  unfolding erase
  erase-upside_from [] k ys = let z : 0 + k ≡ k = omega arith in ap (λ n. erase n ys) z
  erase-upside_from (x ∷ xs) k ys =
      let z : length (x ∷ xs) + k ≡ length xs + suc k = omega arith in
      ap (λ n. erase n (upside xs (x ∷ ys))) z ∙ erase-upside_from xs (suc k) (x ∷ ys)

pub index_of-upside :
    (s : ℕ) (xs : List ℕ) (ys : List ℕ) (k : ℕ)
    → has s xs ≡ false
    → index_of s k (upside xs ys) ≡ index_of s (length xs + k) ys
unfolding index_of
index_of-upside s [] ys k e = let z : 0 + k ≡ k = omega arith in ap (λ n. index_of s n ys) (sym z)
index_of-upside s (x ∷ xs) ys k e =
    let (g, h) = has-not_first s x xs e in
    let z : length xs + k + 1 ≡ suc (length xs) + k = omega arith in
    index_of-upside s xs (x ∷ ys) k h ∙ rw g (ap (λ n. index_of s n ys) z)

pub length-upside : {A : Type 0} (xs ys : List A) → length (upside xs ys) ≡ length xs + length ys
length-upside [] ys = omega arith
length-upside (x ∷ xs) ys = omega (arith, length-upside xs (x ∷ ys))
