-- ===== src/Linked/Middle.antt =====
-- Taking an item out of the sequence, wherever it stands.
use libremo.Prelude.{
  ℕ, ◌≡◌, ◌≢◌, refl, sym, ◌∙◌, false, List, [], ◌∷◌, ◌++◌, ◌==◌, ==_refl, if◌then◌else◌, All,
  Option, some,
}
use libremo.Linked.{ListItem, same_address}
use libremo.Linked.Chain.{first_of, last_of, IsChain, differ-eq}

-- The item in front of what comes after `xs`.
abbrev pub prev_of : Option ℕ → List ℕ → Option ℕ
prev_of q [] = q
prev_of q (x ∷ xs) = prev_of (some x) xs

module _ (P : ℕ → Type 0) where
  All-right : (xs ys : List ℕ) → All P (xs ++ ys) → All P ys
  All-right [] ys h = h
  All-right (x ∷ xs) ys (h, hs) = All-right xs ys hs

  All-left : (xs ys : List ℕ) → All P (xs ++ ys) → All P xs
  All-left [] ys h = tt
  All-left (x ∷ xs) ys (h, hs) = (h, All-left xs ys hs)

  All-join : (xs ys : List ℕ) → All P xs → All P ys → All P (xs ++ ys)
  All-join [] ys h k = k
  All-join (x ∷ xs) ys (h, hs) k = (h, All-join xs ys hs k)

-- An item that no item of a sequence is, is neither its first nor its last.
pub first_of-differs :
    (x : ℕ) (ys : List ℕ) → All (λ y. y ≢ x) ys → same_address (first_of ys) (some x) ≡ false
first_of-differs x [] h = refl
first_of-differs x (y ∷ ys) (h, hs) = differ-eq y x h

pub prev_of-differs :
    (x : ℕ) (q : Option ℕ) (ys : List ℕ)
    → same_address q (some x) ≡ false
    → All (λ y. y ≢ x) ys
    → same_address (prev_of q ys) (some x) ≡ false
prev_of-differs x q [] e h = e
prev_of-differs x q (y ∷ ys) e (h, hs) = prev_of-differs x (some y) ys (differ-eq y x h) hs

pub prev_of-last : (x : ℕ) (xs : List ℕ) → prev_of (some x) xs ≡ last_of (x ∷ xs)
prev_of-last x [] = refl
prev_of-last x (y ∷ ys) = prev_of-last y ys

pub last_of-join :
    (xs : List ℕ) (y : ℕ) (ys : List ℕ) → last_of (xs ++ (y ∷ ys)) ≡ prev_of (some y) ys
last_of-join [] y ys = sym (prev_of-last y ys)
last_of-join (x ∷ []) y ys = sym (prev_of-last y ys)
last_of-join (x ∷ z ∷ xs) y ys = last_of-join (z ∷ xs) y ys

-- Where an item stands in a chain.
pub record Stands (heap : ℕ → ListItem) (l a : ℕ) (q : Option ℕ) (xs ys : List ℕ) : Type 0 where
  pub listed : (heap a).list ≡ some l
  pub before : (heap a).prev ≡ prev_of q xs
  pub behind : (heap a).next ≡ first_of ys
  pub no_left : All (λ x. x ≢ a) xs
  pub no_right : All (λ y. y ≢ a) ys

pub IsChain-Stands :
    (heap : ℕ → ListItem) (l a : ℕ) (q : Option ℕ) (xs ys : List ℕ)
    → IsChain heap l q (xs ++ (a ∷ ys))
    → Stands heap l a q xs ys
IsChain-Stands heap l a q [] ys (li, p, n, d, c) = record {
  listed = li;
  before = p;
  behind = n;
  no_left = tt;
  no_right = d;
}
IsChain-Stands heap l a q (x ∷ xs) ys (li, p, n, d, c) =
    let r = IsChain-Stands heap l a (some x) xs ys c in
    let (far, _) = All-right (λ y. y ≢ x) xs (a ∷ ys) d in
    record {
      listed = r.listed;
      before = r.before;
      behind = r.behind;
      no_left = (λ e. far (sym e), r.no_left);
      no_right = r.no_right;
    }

-- The items `p` and `n` are linked to each other, and all others but `a` are as they were.
pub record Closes (heap heap' : ℕ → ListItem) (a : ℕ) (p n : Option ℕ) : Type 0 where
  pub list_kept : (b : ℕ) → b ≢ a → (heap' b).list ≡ (heap b).list
  pub next_closed :
      (b : ℕ) → b ≢ a → (heap' b).next ≡ (if same_address p (some b) then n else (heap b).next)
  pub prev_closed :
      (b : ℕ) → b ≢ a → (heap' b).prev ≡ (if same_address n (some b) then p else (heap b).prev)

module _ (heap heap' : ℕ → ListItem) (l a : ℕ) (p n : Option ℕ) (k : Closes heap heap' a p n) where
  next_kept : (b : ℕ) → b ≢ a → same_address p (some b) ≡ false → (heap' b).next ≡ (heap b).next
  next_kept b h e = k.next_closed b h ∙ rw e refl

  prev_kept : (b : ℕ) → b ≢ a → same_address n (some b) ≡ false → (heap' b).prev ≡ (heap b).prev
  prev_kept b h e = k.prev_closed b h ∙ rw e refl

  -- Away from the gap the chain is as it was.
  IsChain-away :
      (q : Option ℕ) (ys : List ℕ)
      → All (λ y. y ≢ a) ys
      → All (λ y. same_address p (some y) ≡ false) ys
      → All (λ y. same_address n (some y) ≡ false) ys
      → IsChain heap l q ys
      → IsChain heap' l q ys
  IsChain-away q [] fa fp fn c = tt
  IsChain-away q (y ∷ ys) (fa, fas) (fp, fps) (fn, fns) (li, e, f, d, c) = (
    k.list_kept y fa ∙ li,
    prev_kept y fa fn ∙ e,
    next_kept y fa fp ∙ f,
    d,
    IsChain-away (some y) ys fas fps fns c,
  )

All-differ : (y : ℕ) (ys : List ℕ) → All (λ z. z ≢ y) ys → All (λ z. (y == z) ≡ false) ys
All-differ y [] h = tt
All-differ y (z ∷ zs) (h, hs) = (differ-eq y z (λ e. h (sym e)), All-differ y zs hs)

-- The chain behind an item that is taken out, closed.
IsChain-behind :
    (heap heap' : ℕ → ListItem) (l a : ℕ) (p : Option ℕ) (ys : List ℕ)
    → Closes heap heap' a p (first_of ys)
    → All (λ y. y ≢ a) ys
    → All (λ y. same_address p (some y) ≡ false) ys
    → IsChain heap l (some a) ys
    → IsChain heap' l p ys
IsChain-behind heap heap' l a p [] k fa fp c = tt
IsChain-behind heap heap' l a p (y ∷ ys) k (fa, fas) (fp, fps) (li, e, f, d, c) = (
  k.list_kept y fa ∙ li,
  k.prev_closed y fa ∙ rw (==_refl y) refl,
  next_kept heap heap' l a p (some y) k y fa fp ∙ f,
  d,
  IsChain-away heap heap' l a p (some y) k (some y) ys fas fps (All-differ y ys d) c,
)

-- Taking the item out closes the chain.
pub IsChain-closed :
    (heap heap' : ℕ → ListItem) (l a : ℕ) (q : Option ℕ) (xs ys : List ℕ)
    → Closes heap heap' a (prev_of q xs) (first_of ys)
    → All (λ y. same_address q (some y) ≡ false) (xs ++ (a ∷ ys))
    → IsChain heap l q (xs ++ (a ∷ ys))
    → IsChain heap' l q (xs ++ ys)
IsChain-closed heap heap' l a q [] ys k (f, fs) (li, p, n, d, c) =
    IsChain-behind heap heap' l a q ys k d fs c
IsChain-closed heap heap' l a q (x ∷ xs) ys k (f, fs) (li, p, n, d, c) =
    let (far, right) = All-right (λ y. y ≢ x) xs (a ∷ ys) d in
    let x-ne-a : x ≢ a = λ e. far (sym e) in
    let rest = IsChain-closed heap heap' l a (some x) xs ys k (All-differ x (xs ++ (a ∷ ys)) d) c in
    (
      k.list_kept x x-ne-a ∙ li,
      prev_kept heap heap' l a (prev_of (some x) xs) (first_of ys) k x x-ne-a
            (first_of-differs x ys right)
          ∙ p,
      k.next_closed x x-ne-a ∙ closed_next xs n (All-left (λ y. y ≢ x) xs (a ∷ ys) d),
      All-join (λ y. y ≢ x) xs ys (All-left (λ y. y ≢ x) xs (a ∷ ys) d) right,
      rest,
    )
  where
    closed_next :
        (zs : List ℕ)
        → (heap x).next ≡ first_of (zs ++ (a ∷ ys))
        → All (λ z. z ≢ x) zs
        → (if same_address (prev_of (some x) zs) (some x) then first_of ys else (heap x).next)
          ≡ first_of (zs ++ ys)
    closed_next [] e h = rw (==_refl x) refl
    closed_next (z ∷ zs) e (h, hs) = rw (prev_of-differs x (some z) zs (differ-eq z x h) hs) e
