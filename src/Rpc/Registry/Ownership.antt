-- ===== src/Rpc/Registry/Ownership.antt =====
-- A local endpoint and its functions know each other: what registering and unregistering keep.
use libremo.Prelude.{
  ℕ, ◌≡◌, ◌≢◌, refl, sym, ap, subst, ◌∙◌, ◌==◌, ==_refl, ==_iff, Option, none, some, Bool-cases,
  inl, inr, ◌⊎◌, List, ◌∷◌, true, false, arith,
}
use libremo.Error.{ok}
use libremo.Rpc.Item.{Function}
use libremo.Rpc.Registry.{
  Local, lookup, erase, same_name, put, find_item, register_item, unregister_item,
}
use libremo.Rpc.Registry.Names.{
  same_name-eq, same_name_refl, lookup-cons_same, lookup-cons_other, lookup-erase_same,
  lookup-erase_other,
}

-- The function at `p` has this name and belongs to the endpoint.
abbrev pub Owns : Local → List ℕ → ℕ → Type 0
Owns l name p =
    (item : Function) × (l.heap p ≡ some item) × (item.name ≡ name) × (item.endpoint ≡ some l.self)

-- Every entry leads to a function of this name that belongs to the endpoint, and every function that
-- belongs to the endpoint has an entry.
pub record IsRegistry (l : Local) : Type 0 where
  pub entry : (name : List ℕ) (p : ℕ) → find_item name l ≡ some p → Owns l name p
  pub owned :
      (p : ℕ) (item : Function)
      → l.heap p ≡ some item
      → item.endpoint ≡ some l.self
      → find_item item.name l ≡ some p

pub put-same : (heap : ℕ → Option Function) (p : ℕ) (x : Option Function) → put heap p x p ≡ x
put-same heap p x = rw (==_refl p) refl

differ-eq : (a b : ℕ) → a ≢ b → (a == b) ≡ false
differ-eq a b h = ground arith

pub put-other :
    (heap : ℕ → Option Function) (p q : ℕ) (x : Option Function) → q ≢ p → put heap p x q ≡ heap q
put-other heap p q x h = rw (differ-eq q p h) refl

same_or_not : (a b : ℕ) → (a ≡ b) ⊎ (a ≢ b)
same_or_not a b = elim (Bool-cases (a == b)) [
  | inl e ↦ inl ((==_iff a b).0 e)
  | inr e ↦ inr (λ h. ground arith)
]

absurd_bool : false ≢ true
absurd_bool h = cc

names_same_or_not : (a b : List ℕ) → (a ≡ b) ⊎ (a ≢ b)
names_same_or_not a b = elim (Bool-cases (same_name a b)) [
  | inl e ↦ inl (same_name-eq a b e)
  | inr e ↦ inr (λ h.
      let t = subst (λ x. same_name a x ≡ true) h (same_name_refl a) in
      absurd (absurd_bool (sym e ∙ t)))
]

pub some-eq : {A : Type 0} (x y : A) → some x ≡ some y → x ≡ y
some-eq x y h = cc

abbrev with_endpoint : Function → Option ℕ → Function
with_endpoint item e = record item { endpoint = e }

abbrev pub registered : Local → ℕ → Function → Local
registered l p item = record l {
  items = (item.name, p) ∷ l.items;
  heap = put l.heap p (some (with_endpoint item (some l.self)));
}

abbrev pub unregistered : Local → ℕ → Function → Local
unregistered l p item = record l {
  items = erase item.name l.items;
  heap = put l.heap p (some (with_endpoint item none));
}

-- Two items at one address are one.
one-item :
    (heap : ℕ → Option Function) (p q : ℕ) (i j : Function)
    → heap p ≡ some i
    → heap q ≡ some j
    → q ≡ p
    → i ≡ j
one-item heap p q i j h k e = some-eq i j (sym h ∙ ap heap (sym e) ∙ k)

pub none-some : {A : Type 0} (b : A) → none ≢ some b
none-some b h = cc

pub not-both : (i j : Function) (a : ℕ) → i ≡ j → i.endpoint ≡ none → j.endpoint ≢ some a
not-both i j a e n s = absurd (none-some a (sym n ∙ ap (λ x. x.endpoint) e ∙ s))

pub put-some :
    (heap : ℕ → Option Function) (p q : ℕ) (x i : Function)
    → q ≡ p
    → put heap p (some x) q ≡ some i
    → x ≡ i
put-some heap p q x i e h =
    some-eq x i
      (sym (subst (λ z. put heap p (some x) z ≡ some x) (sym e) (put-same heap p (some x))) ∙ h)

module _ (l : Local) (p : ℕ) (item : Function) (v : IsRegistry l)
    (there : l.heap p ≡ some item) where
  module _ (free : item.endpoint ≡ none) (unused : find_item item.name l ≡ none) where
    abbrev with_us : Function
    with_us = with_endpoint item (some l.self)

    registered-entry :
        (name : List ℕ) (q : ℕ)
        → find_item name (registered l p item) ≡ some q
        → Owns (registered l p item) name q
    unfolding find_item
    registered-entry name q h = elim (names_same_or_not name item.name) [
      | inl same ↦
          let found = subst (λ n. lookup n ((item.name, p) ∷ l.items) ≡ some q) same h in
          let here : p ≡ q = some-eq p q (sym (lookup-cons_same item.name p l.items) ∙ found) in
          (
            with_us,
            subst (λ z. put l.heap p (some with_us) z ≡ some with_us) here
                (put-same l.heap p (some with_us)),
            sym same,
            refl,
          )
      | inr differ ↦
          let (i, at, named, owner) =
            v.entry name q (sym (lookup-cons_other name item.name p l.items differ) ∙ h) in
          (
            i,
            put-other l.heap p q _
                  (λ e. not-both item i l.self (one-item l.heap p q item i there at e) free owner)
                ∙ at,
            named,
            owner,
          )
    ]

    registered-owned :
        (q : ℕ) (i : Function)
        → (registered l p item).heap q ≡ some i
        → i.endpoint ≡ some l.self
        → find_item i.name (registered l p item) ≡ some q
    unfolding find_item
    registered-owned q i h e = elim (same_or_not q p) [
      | inl same ↦
          let it : with_us ≡ i = put-some l.heap p q with_us i same h in
          subst (λ n. lookup n ((item.name, p) ∷ l.items) ≡ some q) (ap (λ x. x.name) it)
            (lookup-cons_same item.name p l.items ∙ ap some (sym same))
      | inr differ ↦
          let found = v.owned q i (sym (put-other l.heap p q _ differ) ∙ h) e in
          lookup-cons_other i.name item.name p l.items
            (λ g. absurd (none-some q (sym unused ∙ ap (λ n. find_item n l) (sym g) ∙ found)))
          ∙ found
    ]

    pub registered-IsRegistry : IsRegistry (registered l p item)
    registered-IsRegistry = record { entry = registered-entry; owned = registered-owned }

  module _ (ours : item.endpoint ≡ some l.self) where
    unregistered-entry :
        (name : List ℕ) (q : ℕ)
        → find_item name (unregistered l p item) ≡ some q
        → Owns (unregistered l p item) name q
    unfolding find_item
    unregistered-entry name q h = elim (names_same_or_not name item.name) [
      | inl same ↦ absurd (
          none-some q (
            sym (lookup-erase_same item.name l.items)
            ∙ subst (λ n. lookup n (erase item.name l.items) ≡ some q) same h))
      | inr differ ↦
          let (i, at, named, owner) =
            v.entry name q (sym (lookup-erase_other name item.name l.items differ) ∙ h) in
          (
            i,
            put-other l.heap p q _ (λ e.
                  differ
                    (sym named ∙ ap (λ x. x.name) (sym (one-item l.heap p q item i there at e))))
                ∙ at,
            named,
            owner,
          )
    ]

    unregistered-owned :
        (q : ℕ) (i : Function)
        → (unregistered l p item).heap q ≡ some i
        → i.endpoint ≡ some l.self
        → find_item i.name (unregistered l p item) ≡ some q
    unfolding find_item
    unregistered-owned q i h e = elim (same_or_not q p) [
      | inl same ↦ absurd (
          not-both (with_endpoint item none) i l.self
            (put-some l.heap p q (with_endpoint item none) i same h) refl e)
      | inr differ ↦
          let found = v.owned q i (sym (put-other l.heap p q _ differ) ∙ h) e in
          lookup-erase_other i.name item.name l.items (λ g.
            differ
              (some-eq q p (sym found ∙ ap (λ n. find_item n l) g ∙ v.owned p item there ours)))
          ∙ found
    ]

    unregistered-IsRegistry : IsRegistry (unregistered l p item)
    unregistered-IsRegistry = record { entry = unregistered-entry; owned = unregistered-owned }

-- Registering a function that belongs to no endpoint under a name that is not taken succeeds:
-- the function is found under its name, every other name leads where it led, and the registry is
-- kept.
pub register_item-IsRegistry :
    (l : Local) (p : ℕ) (item : Function)
    → IsRegistry l
    → l.heap p ≡ some item
    → item.endpoint ≡ none
    → find_item item.name l ≡ none
    → (l' : Local) × (register_item (some p) l ≡ ok l')
      × IsRegistry l'
      × (find_item item.name l' ≡ some p)
      × ((name : List ℕ) → name ≢ item.name → find_item name l' ≡ find_item name l)
unfolding register_item find_item
register_item-IsRegistry l p item v there free unused = (
  registered l p item,
  rw (there, free, unused) refl,
  registered-IsRegistry l p item v there free unused,
  lookup-cons_same item.name p l.items,
  λ name h. lookup-cons_other name item.name p l.items h,
)

-- A function that belongs to the endpoint is unregistered without an exception: its name is free
-- then, every other name leads where it led, and the registry is kept.
pub unregister_item-IsRegistry :
    (l : Local) (p : ℕ) (item : Function)
    → IsRegistry l
    → l.heap p ≡ some item
    → item.endpoint ≡ some l.self
    → (l' : Local) × (unregister_item (some p) l ≡ ok l')
      × IsRegistry l'
      × (find_item item.name l' ≡ none)
      × ((name : List ℕ) → name ≢ item.name → find_item name l' ≡ find_item name l)
unfolding unregister_item find_item
unregister_item-IsRegistry l p item v there ours = (
  unregistered l p item,
  rw (there, v.owned p item there ours) refl,
  unregistered-IsRegistry l p item v there ours,
  lookup-erase_same item.name l.items,
  λ name h. lookup-erase_other name item.name l.items h,
)
