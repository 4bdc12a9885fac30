-- ===== src/Linked/Remove.antt =====
-- `remove` of list.cpp, and the moves that begin with it, on the sequence that a list stands for.
use libremo.Prelude.{
  ℕ, ◌-◌, ◌≡◌, ◌≢◌, inl, inr, refl, sym, ap, subst, ◌∙◌, false, List, [], ◌∷◌, ◌++◌, ◌==◌, ==_refl,
  Bool-cases, if◌then◌else◌, arith, length-append, All, Option, none, some,
}
use libremo.Error.{ok}
use libremo.Linked.{
  ListItem, BaseList, new_item, same_address, update, remove, unlink_first, unlink_last,
  set_next_at, set_prev_at, set_list, set_next, set_prev, move_to_front, move_to_back,
}
use libremo.Linked.Chain.{first_of, last_of, IsChain, Represents, differ-eq, push_front-Represents}
use libremo.Linked.Back.{push_back-Represents}
use libremo.Linked.Middle.{
  prev_of, prev_of-differs, last_of-join, Closes, IsChain-Stands, IsChain-closed,
}

module _ (s : BaseList) (a : ℕ) where
  unlink_first-at_first :
      s.first ≡ some a → unlink_first a s ≡ ok (record s { first = (s.heap a).next })
  unfolding unlink_first
  unlink_first-at_first e = rw (e, ==_refl a) refl

  unlink_first-behind :
      (z : ℕ)
      → same_address s.first (some a) ≡ false
      → (s.heap a).prev ≡ some z
      → unlink_first a s ≡ ok (set_next z (s.heap a).next s)
  unfolding unlink_first set_next_at
  unlink_first-behind z f e = rw (f, e) refl

  unlink_last-at_last : s.last ≡ some a → unlink_last a s ≡ ok (record s { last = (s.heap a).prev })
  unfolding unlink_last
  unlink_last-at_last e = rw (e, ==_refl a) refl

  unlink_last-before :
      (z : ℕ)
      → same_address s.last (some a) ≡ false
      → (s.heap a).next ≡ some z
      → unlink_last a s ≡ ok (set_prev z (s.heap a).prev s)
  unfolding unlink_last set_prev_at
  unlink_last-before z f e = rw (f, e) refl

prev_of-some : (x : ℕ) (xs : List ℕ) → (z : ℕ) × (prev_of (some x) xs ≡ some z)
prev_of-some x [] = (x, refl)
prev_of-some x (y ∷ ys) = prev_of-some y ys

last_of-end : (xs : List ℕ) → last_of (xs ++ []) ≡ prev_of none xs
last_of-end [] = refl
last_of-end (x ∷ []) = refl
last_of-end (x ∷ y ∷ ys) = last_of-end (y ∷ ys)

==_comm : (a b : ℕ) → (a == b) ≡ (b == a)
==_comm a b = ground arith

update-next :
    (z b : ℕ) (v : Option ℕ) (heap : ℕ → ListItem)
    → (update z (λ i. record i { next = v }) heap b).next ≡ (if z == b then v else (heap b).next)
update-next z b v heap =
    rw (==_comm z b) (elim (Bool-cases (b == z)) [ inl e ↦ rw e refl | inr e ↦ rw e refl ])

update-prev :
    (z b : ℕ) (v : Option ℕ) (heap : ℕ → ListItem)
    → (update z (λ i. record i { prev = v }) heap b).prev ≡ (if z == b then v else (heap b).prev)
update-prev z b v heap =
    rw (==_comm z b) (elim (Bool-cases (b == z)) [ inl e ↦ rw e refl | inr e ↦ rw e refl ])

-- A field that an update leaves alone.
update-keeps :
    (f : ListItem → ListItem) (g : ListItem → Option ℕ)
    → ((i : ListItem) → g (f i) ≡ g i)
    → (z b : ℕ) (heap : ℕ → ListItem) → g (update z f heap b) ≡ g (heap b)
update-keeps f g same z b heap = elim (Bool-cases (b == z)) [
  | inl e ↦ rw e (same (heap b))
  | inr e ↦ rw e refl
]

-- What the first `if` of `remove` leaves.
record FrontClosed (s s' : BaseList) (a : ℕ) (p n : Option ℕ) : Type 0 where
  self_kept : s'.self ≡ s.self
  last_kept : s'.last ≡ s.last
  count_kept : s'.count ≡ s.count
  at_item : s'.heap a ≡ s.heap a
  list_kept : (b : ℕ) → (s'.heap b).list ≡ (s.heap b).list
  prev_kept : (b : ℕ) → (s'.heap b).prev ≡ (s.heap b).prev
  next_closed :
      (b : ℕ) → (s'.heap b).next ≡ (if same_address p (some b) then n else (s.heap b).next)

-- What the second one leaves.
record BackClosed (s s' : BaseList) (a : ℕ) (p n : Option ℕ) : Type 0 where
  self_kept : s'.self ≡ s.self
  first_kept : s'.first ≡ s.first
  count_kept : s'.count ≡ s.count
  at_item : s'.heap a ≡ s.heap a
  list_kept : (b : ℕ) → (s'.heap b).list ≡ (s.heap b).list
  next_kept : (b : ℕ) → (s'.heap b).next ≡ (s.heap b).next
  prev_closed :
      (b : ℕ) → (s'.heap b).prev ≡ (if same_address n (some b) then p else (s.heap b).prev)

module _ (s : BaseList) (a : ℕ) where
  front_closed :
      (xs ys : List ℕ)
      → s.first ≡ first_of (xs ++ (a ∷ ys))
      → All (λ x. x ≢ a) xs
      → (s.heap a).prev ≡ prev_of none xs
      → (s.heap a).next ≡ first_of ys
      → (s' : BaseList) × (unlink_first a s ≡ ok s')
        × (s'.first ≡ first_of (xs ++ ys))
        × FrontClosed s s' a (prev_of none xs) (first_of ys)
  front_closed [] ys e far p n = (
    record s { first = (s.heap a).next },
    unlink_first-at_first s a e,
    n,
    record {
      self_kept = refl;
      last_kept = refl;
      count_kept = refl;
      at_item = refl;
      list_kept = λ b. refl;
      prev_kept = λ b. refl;
      next_closed = λ b. refl;
    },
  )
  front_closed (x ∷ xs) ys e (f, fs) p n =
      let (z, w) = prev_of-some x xs in
      let z-ne-a : (z == a) ≡ false =
        subst (λ o. same_address o (some a) ≡ false) w
          (prev_of-differs a (some x) xs (differ-eq x a f) fs) in
      (
        set_next z (s.heap a).next s,
        unlink_first-behind s a z (rw e (differ-eq x a f)) (p ∙ w),
        e,
        record {
          self_kept = refl;
          last_kept = refl;
          count_kept = refl;
          at_item = rw (==_comm a z, z-ne-a) refl;
          list_kept = λ b.
              update-keeps (λ i. record i { next = (s.heap a).next }) (λ i. i.list) (λ i. refl) z b
                s.heap;
          prev_kept = λ b.
              update-keeps (λ i. record i { next = (s.heap a).next }) (λ i. i.prev) (λ i. refl) z b
                s.heap;
          next_closed = λ b.
              update-next z b (s.heap a).next s.heap
              ∙ ap (λ v. if z == b then v else (s.heap b).next) n
              ∙ ap (λ o. if same_address o (some b) then first_of ys else (s.heap b).next) (sym w);
        },
      )

  back_closed :
      (xs ys : List ℕ)
      → s.last ≡ prev_of (some a) ys
      → All (λ y. y ≢ a) ys
      → (s.heap a).prev ≡ prev_of none xs
      → (s.heap a).next ≡ first_of ys
      → (s' : BaseList) × (unlink_last a s ≡ ok s')
        × (s'.last ≡ last_of (xs ++ ys))
        × BackClosed s s' a (prev_of none xs) (first_of ys)
  back_closed xs [] e far p n = (
    record s { last = (s.heap a).prev },
    unlink_last-at_last s a e,
    p ∙ sym (last_of-end xs),
    record {
      self_kept = refl;
      first_kept = refl;
      count_kept = refl;
      at_item = refl;
      list_kept = λ b. refl;
      next_kept = λ b. refl;
      prev_closed = λ b. refl;
    },
  )
  back_closed xs (y ∷ ys) e (f, fs) p n = (
    set_prev y (s.heap a).prev s,
    unlink_last-before s a y (rw e (prev_of-differs a (some y) ys (differ-eq y a f) fs)) n,
    e ∙ sym (last_of-join xs y ys),
    record {
      self_kept = refl;
      first_kept = refl;
      count_kept = refl;
      at_item = rw (==_comm a y, differ-eq y a f) refl;
      list_kept = λ b.
          update-keeps (λ i. record i { prev = (s.heap a).prev }) (λ i. i.list) (λ i. refl) y b
            s.heap;
      next_kept = λ b.
          update-keeps (λ i. record i { prev = (s.heap a).prev }) (λ i. i.next) (λ i. refl) y b
            s.heap;
      prev_closed = λ b.
          update-prev y b (s.heap a).prev s.heap
          ∙ ap (λ v. if y == b then v else (s.heap b).prev) p;
    },
  )

-- The item as `remove` leaves it.
abbrev freed : ℕ → BaseList → BaseList
freed a s = set_list a none (set_next a none (set_prev a none (record s { count = s.count - 1 })))

freed-at : (a : ℕ) (s : BaseList) → (freed a s).heap a ≡ new_item none
freed-at a s = rw (==_refl a) refl

freed-other : (a b : ℕ) (s : BaseList) → b ≢ a → (freed a s).heap b ≡ s.heap b
freed-other a b s h = rw (differ-eq b a h) refl

no_item : (ys : List ℕ) → All (λ y. same_address none (some y) ≡ false) ys
no_item [] = tt
no_item (y ∷ ys) = (refl, no_item ys)

remove-run :
    (a : ℕ) (s s1 s2 : BaseList)
    → (s.heap a).list ≡ some s.self
    → unlink_first a s ≡ ok s1
    → unlink_last a s1 ≡ ok s2
    → remove a s ≡ ok (freed a s2)
unfolding remove
remove-run a s s1 s2 e f g = rw (e, ==_refl s.self, f, g) refl

-- An item is taken out of the list, wherever it stands.
pub remove-Represents :
    (a : ℕ) (s : BaseList) (xs ys : List ℕ)
    → Represents s (xs ++ (a ∷ ys))
    → (s' : BaseList) × (remove a s ≡ ok s')
      × Represents s' (xs ++ ys)
      × (s'.heap a ≡ new_item none)
remove-Represents a s xs ys r =
    let st = IsChain-Stands s.heap s.self a none xs ys r.chain in
    let (s1, run1, e1, f) = front_closed s a xs ys r.first st.no_left st.before st.behind in
    let (s2, run2, e2, g) =
      back_closed s1 a xs ys (f.last_kept ∙ r.last ∙ last_of-join xs a ys) st.no_right
        (ap (λ i. i.prev) f.at_item ∙ st.before) (ap (λ i. i.next) f.at_item ∙ st.behind) in
    let closes : Closes s.heap (freed a s2).heap a (prev_of none xs) (first_of ys) = record {
      list_kept = λ b h. ap (λ i. i.list) (freed-other a b s2 h) ∙ g.list_kept b ∙ f.list_kept b;
      next_closed =
          λ b h. ap (λ i. i.next) (freed-other a b s2 h) ∙ g.next_kept b ∙ f.next_closed b;
      prev_closed = λ b h.
          ap (λ i. i.prev) (freed-other a b s2 h)
          ∙ g.prev_closed b
          ∙ ap (λ v. if same_address (first_of ys) (some b) then prev_of none xs else v)
              (f.prev_kept b);
    } in
    let self_kept : s2.self ≡ s.self = g.self_kept ∙ f.self_kept in
    (
      freed a s2,
      remove-run a s s1 s2 st.listed run1 run2,
      record {
        first = g.first_kept ∙ e1;
        last = e2;
        count = omega (
          arith,
          g.count_kept,
          f.count_kept,
          r.count,
          length-append xs (a ∷ ys),
          length-append xs ys,
        );
        chain =
            subst (λ l. IsChain (freed a s2).heap l none (xs ++ ys)) (sym self_kept)
              (IsChain-closed s.heap (freed a s2).heap s.self a none xs ys closes
                (no_item (xs ++ (a ∷ ys))) r.chain);
      },
      freed-at a s2,
    )

-- An item of the list is taken out of it, wherever it stands: the list stands for the sequence
-- without the item, which is in no list then and has no neighbours. Moved to the front or the
-- back instead, it stands before or behind all the others, which stay in order.
pub takes-Represents :
    (a : ℕ) (s : BaseList) (xs ys : List ℕ)
    → Represents s (xs ++ (a ∷ ys))
    → ((s' : BaseList) × (remove a s ≡ ok s')
        × Represents s' (xs ++ ys)
        × (s'.heap a ≡ new_item none))
      × ((s' : BaseList) × (move_to_front a s ≡ ok s') × Represents s' (a ∷ xs ++ ys))
      × ((s' : BaseList) × (move_to_back a s ≡ ok s') × Represents s' ((xs ++ ys) ++ (a ∷ [])))
unfolding move_to_front move_to_back
takes-Represents a s xs ys r =
    let (s1, run, r1, e) = remove-Represents a s xs ys r in
    let (s2, run2, r2) =
      push_front-Represents a s1 (xs ++ ys) (ap (λ i. i.list) e) (ap (λ i. i.prev) e) r1 in
    let (s3, run3, r3) =
      push_back-Represents a s1 (xs ++ ys) (ap (λ i. i.list) e) (ap (λ i. i.next) e) r1 in
    ((s1, run, r1, e), (s2, rw run run2, r2), (s3, rw run run3, r3))
