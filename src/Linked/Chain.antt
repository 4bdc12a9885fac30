-- ===== src/Linked/Chain.antt =====
-- The sequence that a list stands for.
use libremo.Prelude.{
  ℕ, suc, ◌+◌, ◌≡◌, ◌≢◌, refl, sym, ap, ◌∙◌, false, List, [], ◌∷◌, ◌==◌, ==_refl, arith, length,
  All, Option, none, some,
}
use libremo.Error.{ok}
use libremo.Linked.{
  ListItem, BaseList, update, push_front, set_prev_at, is_empty, set_list, set_next, set_prev,
}

abbrev pub first_of : List ℕ → Option ℕ
first_of [] = none
first_of (x ∷ xs) = some x

abbrev pub last_of : List ℕ → Option ℕ
last_of [] = none
last_of (x ∷ []) = some x
last_of (x ∷ y ∷ ys) = last_of (y ∷ ys)

-- From `prev` on, the items `xs` of the list `l` are linked in both directions.
abbrev pub IsChain : (ℕ → ListItem) → ℕ → Option ℕ → List ℕ → Type 0
IsChain heap l prev [] = Unit {0}
IsChain heap l prev (x ∷ xs) =
    ((heap x).list ≡ some l)
    × ((heap x).prev ≡ prev)
    × ((heap x).next ≡ first_of xs)
    × All (λ y. y ≢ x) xs
    × IsChain heap l (some x) xs

-- The list stands for the items `xs`, from its first to its last.
pub record Represents (s : BaseList) (xs : List ℕ) : Type 0 where
  pub first : s.first ≡ first_of xs
  pub last : s.last ≡ last_of xs
  pub count : s.count ≡ length xs
  pub chain : IsChain s.heap s.self none xs

pub differ-eq : (a b : ℕ) → a ≢ b → (a == b) ≡ false
differ-eq a b h = ground arith

-- A heap that is the same at the items of a chain has the chain.
pub IsChain-same :
    (heap heap' : ℕ → ListItem) (l : ℕ) (prev : Option ℕ) (xs : List ℕ)
    → All (λ x. heap' x ≡ heap x) xs
    → IsChain heap l prev xs
    → IsChain heap' l prev xs
IsChain-same heap heap' l prev [] same c = tt
IsChain-same heap heap' l prev (x ∷ xs) (e, es) (li, p, n, d, c) = (
  ap (λ i. i.list) e ∙ li,
  ap (λ i. i.prev) e ∙ p,
  ap (λ i. i.next) e ∙ n,
  d,
  IsChain-same heap heap' l (some x) xs es c,
)

apart : (o : Option ℕ) → o ≡ none → (l : ℕ) → o ≢ some l
apart o e l h = cc

-- An item that is in no list is none of the chain's.
pub IsChain-fresh :
    (heap : ℕ → ListItem) (l a : ℕ) (prev : Option ℕ) (xs : List ℕ)
    → (heap a).list ≡ none
    → IsChain heap l prev xs
    → All (λ x. x ≢ a) xs
IsChain-fresh heap l a prev [] h c = tt
IsChain-fresh heap l a prev (x ∷ xs) h (li, p, n, d, c) = (
  λ e. apart (heap x).list (ap (λ y. (heap y).list) e ∙ h) l li,
  IsChain-fresh heap l a (some x) xs h c,
)

pub update-other :
    (a b : ℕ) (f : ListItem → ListItem) (heap : ℕ → ListItem) → b ≢ a → update a f heap b ≡ heap b
update-other a b f heap h = rw (differ-eq b a h) refl

pub update-same :
    (a : ℕ) (f : ListItem → ListItem) (heap : ℕ → ListItem) → update a f heap a ≡ f (heap a)
update-same a f heap = rw (==_refl a) refl

pub updates-other :
    (a : ℕ) (f : ListItem → ListItem) (heap : ℕ → ListItem) (xs : List ℕ)
    → All (λ x. x ≢ a) xs
    → All (λ x. update a f heap x ≡ heap x) xs
updates-other a f heap [] h = tt
updates-other a f heap (x ∷ xs) (h, hs) = (update-other a x f heap h, updates-other a f heap xs hs)

pub count-nonzero : (s : BaseList) (n : ℕ) → s.count ≡ suc n → (s.count == 0) ≡ false
count-nonzero s n h = ground arith

-- The new item, linked in front of the first one.
abbrev linked : ℕ → BaseList → BaseList
linked a s = set_next a s.first (set_list a (some s.self) s)

linked-at :
    (a : ℕ) (s : BaseList)
    → (linked a s).heap a ≡ record (s.heap a) { list = some s.self; next = s.first }
linked-at a s = rw (==_refl a) refl

linked-other : (a b : ℕ) (s : BaseList) → b ≢ a → (linked a s).heap b ≡ s.heap b
linked-other a b s h = rw (differ-eq b a h) refl

linked-others :
    (a : ℕ) (s : BaseList) (xs : List ℕ)
    → All (λ x. x ≢ a) xs
    → All (λ x. (linked a s).heap x ≡ s.heap x) xs
linked-others a s [] h = tt
linked-others a s (x ∷ xs) (h, hs) = (linked-other a x s h, linked-others a s xs hs)

module _ (a : ℕ) (s : BaseList) (free : (s.heap a).list ≡ none)
    (unlinked : (s.heap a).prev ≡ none) where
  push_front-nil :
      Represents s [] → (s' : BaseList) × (push_front a s ≡ ok s') × Represents s' (a ∷ [])
  unfolding push_front is_empty
  push_front-nil r = (
    record (linked a s) { first = some a; last = some a; count = s.count + 1 },
    rw (free, r.count) refl,
    record {
      first = refl;
      last = refl;
      count = omega (arith, r.count);
      chain = (
        ap (λ i. i.list) (linked-at a s),
        ap (λ i. i.prev) (linked-at a s) ∙ unlinked,
        ap (λ i. i.next) (linked-at a s) ∙ r.first,
        tt,
        tt,
      );
    },
  )

  push_front-run :
      (x n : ℕ)
      → s.count ≡ suc n
      → s.first ≡ some x
      → push_front a s
        ≡ ok (record (set_prev x (some a) (linked a s)) { first = some a; count = s.count + 1 })
  unfolding push_front is_empty set_prev_at
  push_front-run x n k e = rw (free, count-nonzero s n k, e) refl

  push_front-cons :
      (x : ℕ) (xs : List ℕ)
      → Represents s (x ∷ xs)
      → (s' : BaseList) × (push_front a s ≡ ok s') × Represents s' (a ∷ x ∷ xs)
  unfolding push_front is_empty set_prev_at
  push_front-cons x xs r =
      let (li, p, n, d, c) = r.chain in
      let fresh = IsChain-fresh s.heap s.self a none (x ∷ xs) free r.chain in
      let f : ListItem → ListItem = λ i. record i { prev = some a } in
      let heap' = update x f (linked a s).heap in
      let at_a : heap' a ≡ record (s.heap a) { list = some s.self; next = s.first } =
        update-other x a f (linked a s).heap (λ e. fresh.0 (sym e)) ∙ linked-at a s in
      let at_x : heap' x ≡ f (s.heap x) =
        update-same x f (linked a s).heap ∙ ap f (linked-other a x s fresh.0) in
      (
        record (set_prev x (some a) (linked a s)) { first = some a; count = s.count + 1 },
        push_front-run x (length xs) r.count r.first,
        record {
          first = refl;
          last = r.last;
          count = omega (arith, r.count);
          chain = (
            ap (λ i. i.list) at_a,
            ap (λ i. i.prev) at_a ∙ unlinked,
            ap (λ i. i.next) at_a ∙ r.first,
            fresh,
            (
              ap (λ i. i.list) at_x ∙ li,
              ap (λ i. i.prev) at_x,
              ap (λ i. i.next) at_x ∙ n,
              d,
              IsChain-same (linked a s).heap heap' s.self (some x) xs
                  (updates-other x f (linked a s).heap xs d)
                  (IsChain-same s.heap (linked a s).heap s.self (some x) xs
                    (linked-others a s xs fresh.1) c),
            ),
          );
        },
      )

-- An item that is in no list and has no predecessor is put in front of all the others: the list
-- stands for the sequence with this item first.
pub push_front-Represents :
    (a : ℕ) (s : BaseList) (xs : List ℕ)
    → (s.heap a).list ≡ none
    → (s.heap a).prev ≡ none
    → Represents s xs
    → (s' : BaseList) × (push_front a s ≡ ok s') × Represents s' (a ∷ xs)
push_front-Represents a s [] free unlinked r = push_front-nil a s free unlinked r
push_front-Represents a s (x ∷ xs) free unlinked r = push_front-cons a s free unlinked x xs r
