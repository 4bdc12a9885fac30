-- ===== src/Linked/Back.antt =====
-- Putting an item behind the last one.
use libremo.Prelude.{
  ℕ, suc, ◌+◌, ◌≡◌, ◌≢◌, refl, sym, ap, subst, ◌∙◌, List, [], ◌∷◌, ◌++◌, ==_refl, arith, length,
  length-append, All, Option, none, some,
}
use libremo.Error.{ok}
use libremo.Linked.{
  ListItem, BaseList, update, new_item, push_front, push_back, set_next_at, is_empty, set_list,
  set_next, set_prev,
}
use libremo.Linked.Chain.{
  push_front-Represents, last_of, IsChain, Represents, IsChain-same, IsChain-fresh, update-other,
  update-same, differ-eq, count-nonzero,
}

some-eq : (x y : ℕ) → some x ≡ some y → x ≡ y
some-eq x y h = cc

All-last :
    (P : ℕ → Type 0) (x : ℕ) (xs : List ℕ) (z : ℕ)
    → All P (x ∷ xs)
    → last_of (x ∷ xs) ≡ some z
    → P z
All-last P x [] z (p, ps) e = subst P (some-eq x z e) p
All-last P x (y ∷ ys) z (p, ps) e = All-last P y ys z ps e

All-append : (P : ℕ → Type 0) (xs : List ℕ) (a : ℕ) → All P xs → P a → All P (xs ++ (a ∷ []))
All-append P [] a ps p = (p, tt)
All-append P (x ∷ xs) a (q, ps) p = (q, All-append P xs a ps p)

last_of-append : (x : ℕ) (xs : List ℕ) (a : ℕ) → last_of ((x ∷ xs) ++ (a ∷ [])) ≡ some a
last_of-append x [] a = refl
last_of-append x (y ∷ ys) a = last_of-append y ys a

last-some : (x : ℕ) (xs : List ℕ) → (z : ℕ) × (last_of (x ∷ xs) ≡ some z)
last-some x [] = (x, refl)
last-some x (y ∷ ys) = last-some y ys

abbrev to_next : ℕ → ListItem → ListItem
to_next a i = record i { next = some a }

-- A chain whose last item is linked to one more.
IsChain-append :
    (heap : ℕ → ListItem) (l a z : ℕ) (prev : Option ℕ) (x : ℕ) (xs : List ℕ)
    → IsChain heap l prev (x ∷ xs)
    → All (λ y. y ≢ a) (x ∷ xs)
    → last_of (x ∷ xs) ≡ some z
    → heap a ≡ record { list = some l; prev = some z; next = none }
    → IsChain (update z (to_next a) heap) l prev ((x ∷ xs) ++ (a ∷ []))
IsChain-append heap l a z prev x [] (li, p, n, d, c) (f, fs) e h =
    let same : x ≡ z = some-eq x z e in
    let at_x : update z (to_next a) heap x ≡ to_next a (heap x) =
      subst (λ y. update y (to_next a) heap x ≡ to_next a (heap x)) same
        (update-same x (to_next a) heap) in
    let at_a : update z (to_next a) heap a ≡ record { list = some l; prev = some z; next = none } =
      update-other z a (to_next a) heap (λ g. f (same ∙ sym g)) ∙ h in
    (
      ap (λ i. i.list) at_x ∙ li,
      ap (λ i. i.prev) at_x ∙ p,
      ap (λ i. i.next) at_x,
      (λ g. f (sym g), tt),
      (
        ap (λ i. i.list) at_a,
        ap (λ i. i.prev) at_a ∙ ap some (sym same),
        ap (λ i. i.next) at_a,
        tt,
        tt,
      ),
    )
IsChain-append heap l a z prev x (y ∷ ys) (li, p, n, d, c) (f, fs) e h =
    let at_x : update z (to_next a) heap x ≡ heap x =
      update-other z x (to_next a) heap (λ g. All-last (λ w. w ≢ x) y ys z d e (sym g)) in
    (
      ap (λ i. i.list) at_x ∙ li,
      ap (λ i. i.prev) at_x ∙ p,
      ap (λ i. i.next) at_x ∙ n,
      All-append (λ w. w ≢ x) (y ∷ ys) a d (λ g. f (sym g)),
      IsChain-append heap l a z (some x) y ys c fs e h,
    )

abbrev linked : ℕ → BaseList → BaseList
linked a s = set_prev a s.last (set_list a (some s.self) s)

linked-at :
    (a : ℕ) (s : BaseList)
    → (linked a s).heap a ≡ record (s.heap a) { list = some s.self; prev = s.last }
linked-at a s = rw (==_refl a) refl

linked-other : (a b : ℕ) (s : BaseList) → b ≢ a → (linked a s).heap b ≡ s.heap b
linked-other a b s h = rw (differ-eq b a h) refl

linked-others :
    (a : ℕ) (s : BaseList) (xs : List ℕ)
    → All (λ x. x ≢ a) xs
    → All (λ x. (linked a s).heap x ≡ s.heap x) xs
linked-others a s [] h = tt
linked-others a s (x ∷ xs) (h, hs) = (linked-other a x s h, linked-others a s xs hs)

abbrev item : Option ℕ → Option ℕ → Option ℕ → ListItem
item l p n = record { list = l; prev = p; next = n }

item-eq : (l p q n : Option ℕ) → p ≡ q → n ≡ none → item l p n ≡ item l q none
item-eq l p q n e f = ap (λ x. item l x n) e ∙ ap (λ x. item l q x) f

module _ (a : ℕ) (s : BaseList) (free : (s.heap a).list ≡ none)
    (unlinked : (s.heap a).next ≡ none) where
  push_back-nil :
      Represents s [] → (s' : BaseList) × (push_back a s ≡ ok s') × Represents s' (a ∷ [])
  unfolding push_back is_empty
  push_back-nil r = (
    record (linked a s) { first = some a; last = some a; count = s.count + 1 },
    rw (free, r.count) refl,
    record {
      first = refl;
      last = refl;
      count = omega (arith, r.count);
      chain = (
        ap (λ i. i.list) (linked-at a s),
        ap (λ i. i.prev) (linked-at a s) ∙ r.last,
        ap (λ i. i.next) (linked-at a s) ∙ unlinked,
        tt,
        tt,
      );
    },
  )

  push_back-run :
      (z n : ℕ)
      → s.count ≡ suc n
      → s.last ≡ some z
      → push_back a s
        ≡ ok (record (set_next z (some a) (linked a s)) { last = some a; count = s.count + 1 })
  unfolding push_back is_empty set_next_at
  push_back-run z n k e = rw (free, count-nonzero s n k, e) refl

  push_back-cons :
      (x : ℕ) (xs : List ℕ)
      → Represents s (x ∷ xs)
      → (s' : BaseList) × (push_back a s ≡ ok s') × Represents s' ((x ∷ xs) ++ (a ∷ []))
  push_back-cons x xs r =
      let (z, e) = last-some x xs in
      let fresh = IsChain-fresh s.heap s.self a none (x ∷ xs) free r.chain in
      let at_a : (linked a s).heap a ≡ record { list = some s.self; prev = some z; next = none } =
        linked-at a s
        ∙ item-eq (some s.self) s.last (some z) (s.heap a).next (r.last ∙ e) unlinked in
      (
        record (set_next z (some a) (linked a s)) { last = some a; count = s.count + 1 },
        push_back-run z (length xs) r.count (r.last ∙ e),
        record {
          first = r.first;
          last = sym (last_of-append x xs a);
          count = omega (arith, r.count, length-append (x ∷ xs) (a ∷ []));
          chain =
              IsChain-append (linked a s).heap s.self a z none x xs
                (IsChain-same s.heap (linked a s).heap s.self none (x ∷ xs)
                  (linked-others a s (x ∷ xs) fresh) r.chain)
                fresh e at_a;
        },
      )

-- An item that is in no list and has no successor is put behind all the others: the list stands
-- for the sequence with this item last.
pub push_back-Represents :
    (a : ℕ) (s : BaseList) (xs : List ℕ)
    → (s.heap a).list ≡ none
    → (s.heap a).next ≡ none
    → Represents s xs
    → (s' : BaseList) × (push_back a s ≡ ok s') × Represents s' (xs ++ (a ∷ []))
push_back-Represents a s [] free unlinked r = push_back-nil a s free unlinked r
push_back-Represents a s (x ∷ xs) free unlinked r = push_back-cons a s free unlinked x xs r

-- An item that is in no list and has no neighbours is put in front of all the others, or behind
-- them: the list stands for the sequence with this item first, or last.
pub pushes-Represents :
    (a : ℕ) (s : BaseList) (xs : List ℕ)
    → s.heap a ≡ new_item none
    → Represents s xs
    → ((s' : BaseList) × (push_front a s ≡ ok s') × Represents s' (a ∷ xs))
      × ((s' : BaseList) × (push_back a s ≡ ok s') × Represents s' (xs ++ (a ∷ [])))
pushes-Represents a s xs free r = (
  push_front-Represents a s xs (ap (λ i. i.list) free) (ap (λ i. i.prev) free) r,
  push_back-Represents a s xs (ap (λ i. i.list) free) (ap (λ i. i.next) free) r,
)
