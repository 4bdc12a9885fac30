-- ===== src/Rpc/Registry/Clear.antt =====
-- The end of the items of a local endpoint.
use libremo.Prelude.{
  ℕ, ◌≡◌, ◌≢◌, refl, sym, ap, subst, ◌∙◌, Bool, true, false, ◌||◌, List, [], ◌∷◌, ◌==◌, ==_refl,
  ==_iff, if◌then◌else◌, Option, none, some, Bool-cases, inl, inr,
}
use libremo.Error.{ok, ◌>>=◌}
use libremo.Rpc.Item.{Function}
use libremo.Rpc.Registry.{
  Local, same_name, lookup, put, find_item, delete_at, delete_all, clear_items, destroy_item,
}
use libremo.Rpc.Registry.Names.{lookup-cons_same, lookup-cons_other}
use libremo.Rpc.Registry.Ownership.{IsRegistry, none-some, some-eq}

-- No two entries have one name.
abbrev pub IsMap : List (List ℕ × ℕ) → Type 0
IsMap [] = Unit {0}
IsMap ((n, p) ∷ rest) = (lookup n rest ≡ none) × IsMap rest

abbrev is_at : ℕ → Option ℕ → Bool
is_at self none = false
is_at self (some a) = a == self

-- What is left at an address when all items of the endpoint at `self` are gone.
abbrev pub others : ℕ → Option Function → Option Function
others self none = none
others self (some item) = if is_at self item.endpoint then none else some item

abbrev no_items : Local → Local
no_items l = record l { items = [] }

listed : ℕ → List (List ℕ × ℕ) → Bool
listed q [] = false
listed q ((n, p) ∷ rest) = (q == p) || listed q rest

-- Every entry leads to an item of its name.
Leads : (ℕ → Option Function) → List (List ℕ × ℕ) → Type 0
Leads heap items =
    (n : List ℕ) (p : ℕ)
    → lookup n items ≡ some p
    → (item : Function) × (heap p ≡ some item) × (item.name ≡ n)

deleted : Local → ℕ → Function → Local
deleted l p item = record l {
  heap = put (put l.heap p (some (record item { endpoint = none }))) p none;
}

delete_at-eq :
    (l : Local) (p : ℕ) (item : Function)
    → l.heap p ≡ some item
    → delete_at p (l.heap p) l ≡ ok (deleted l p item)
unfolding delete_at destroy_item deleted
delete_at-eq l p item h = rw (h, delete_at, ==_refl p) refl

deleted-heap :
    (l : Local) (p : ℕ) (item : Function) (q : ℕ)
    → (deleted l p item).heap q ≡ (if q == p then none else l.heap q)
unfolding deleted
deleted-heap l p item q = elim (Bool-cases (q == p)) [ inl e ↦ rw e refl | inr e ↦ rw e refl ]

or-right : (a b : Bool) → a ≡ false → (a || b) ≡ b
or-right a b h = rw h refl

not-some : (x : Option ℕ) (p : ℕ) → x ≡ none → x ≢ some p
not-some x p h k = absurd (none-some p (sym h ∙ k))

-- The items of the other entries are still there when one is deleted.
deleted-Leads :
    (l : Local) (n : List ℕ) (p : ℕ) (item : Function) (rest : List (List ℕ × ℕ))
    → lookup n rest ≡ none
    → l.heap p ≡ some item
    → item.name ≡ n
    → Leads l.heap ((n, p) ∷ rest)
    → Leads (deleted l p item).heap rest
unfolding Leads
deleted-Leads l n p item rest alone at named leads m q h =
    let differ : m ≢ n =
      λ e. not-some (lookup n rest) q alone (subst (λ x. lookup x rest ≡ some q) e h) in
    let (i, at', named') = leads m q (lookup-cons_other m n p rest differ ∙ h) in
    let apart : (q == p) ≡ false = elim (Bool-cases (q == p)) [
      | inl e ↦
          let same : q ≡ p = (==_iff q p).0 e in
          let it : item ≡ i = some-eq item i (sym at ∙ ap l.heap (sym same) ∙ at') in
          absurd (differ (sym named' ∙ ap (λ x. x.name) (sym it) ∙ named))
      | inr e ↦ e
    ] in
    (i, deleted-heap l p item q ∙ rw apart at', named')

first :
    (heap : ℕ → Option Function) (n : List ℕ) (p : ℕ) (rest : List (List ℕ × ℕ))
    → Leads heap ((n, p) ∷ rest)
    → (item : Function) × (heap p ≡ some item) × (item.name ≡ n)
unfolding Leads
first heap n p rest k = k n p (lookup-cons_same n p rest)

both :
    (l : Local) (n : List ℕ) (p : ℕ) (item : Function) (rest : List (List ℕ × ℕ)) (q : ℕ)
    → (if listed q rest then none else (deleted l p item).heap q)
      ≡ (if listed q ((n, p) ∷ rest) then none else l.heap q)
unfolding listed
both l n p item rest q = elim (Bool-cases (listed q rest)) [
  | inl e ↦ elim (Bool-cases (q == p)) [ inl f ↦ rw (e, f) refl | inr f ↦ rw (e, f) refl ]
  | inr e ↦ elim (Bool-cases (q == p)) [
    | inl f ↦ rw (e, deleted-heap l p item q, f) refl
    | inr f ↦ rw (e, deleted-heap l p item q, f) refl
  ]
]

-- The loop deletes every item of the list, and nothing else.
delete_all_lem :
    (items : List (List ℕ × ℕ)) (l : Local)
    → IsMap items
    → Leads l.heap items
    → (l' : Local) × (delete_all items l ≡ ok l')
      × ((q : ℕ) → l'.heap q ≡ (if listed q items then none else l.heap q))
unfolding delete_all listed
delete_all_lem [] l v leads = (l, refl, λ q. refl)
delete_all_lem ((n, p) ∷ rest) l (alone, v) leads =
    let (item, at, named) = first l.heap n p rest leads in
    let (l', e, heap) =
      delete_all_lem rest (deleted l p item) v
        (deleted-Leads l n p item rest alone at named leads) in
    (
      l',
      ap (λ r. r >>= (λ l1. delete_all rest l1)) (delete_at-eq l p item at) ∙ e,
      λ q. heap q ∙ both l n p item rest q,
    )

lookup-listed :
    (n : List ℕ) (q : ℕ) (items : List (List ℕ × ℕ))
    → lookup n items ≡ some q
    → listed q items ≡ true
unfolding lookup listed
lookup-listed n q [] h = absurd (none-some q h)
lookup-listed n q ((m, p) ∷ rest) h = elim (Bool-cases (same_name n m)) [
  | inl e ↦
      let here : p ≡ q =
        some-eq p q (subst (λ b. (if b then some p else lookup n rest) ≡ some q) e h) in
      rw (sym here, ==_refl p) refl
  | inr e ↦
      let later = subst (λ b. (if b then some p else lookup n rest) ≡ some q) e h in
      elim (Bool-cases (q == p)) [
        | inl f ↦ rw f refl
        | inr f ↦ rw (f, lookup-listed n q rest later) refl
      ]
]

false-true : false ≢ true
false-true h = cc

listed-lookup :
    (q : ℕ) (items : List (List ℕ × ℕ))
    → IsMap items
    → listed q items ≡ true
    → (n : List ℕ) × (lookup n items ≡ some q)
unfolding lookup listed
listed-lookup q [] v h = absurd (false-true h)
listed-lookup q ((m, p) ∷ rest) (alone, v) h = elim (Bool-cases (q == p)) [
  | inl e ↦ (m, lookup-cons_same m p rest ∙ ap some (sym ((==_iff q p).0 e)))
  | inr e ↦
      let (n, found) = listed-lookup q rest v (subst (λ b. (b || listed q rest) ≡ true) e h) in
      let differ : n ≢ m =
        λ g. not-some (lookup m rest) q alone (subst (λ x. lookup x rest ≡ some q) g found) in
      (n, lookup-cons_other n m p rest differ ∙ found)
]

module _ (l : Local) (v : IsRegistry l) (map : IsMap l.items) where
  registry-Leads : Leads l.heap l.items
  unfolding Leads find_item
  registry-Leads n p h = let (item, at, named, _) = v.entry n p h in (item, at, named)

  listed-owner :
      (q : ℕ) (item : Function)
      → l.heap q ≡ some item
      → listed q l.items ≡ true
      → item.endpoint ≡ some l.self
  unfolding find_item
  listed-owner q item at h =
      let (n, found) = listed-lookup q l.items map h in
      let (i, at', _, owner) = v.entry n q found in
      ap (λ x. x.endpoint) (some-eq item i (sym at ∙ at')) ∙ owner

  owner-listed :
      (q : ℕ) (item : Function)
      → l.heap q ≡ some item
      → item.endpoint ≡ some l.self
      → listed q l.items ≡ true
  unfolding find_item
  owner-listed q item at h = lookup-listed item.name q l.items (v.owned q item at h)

  is_at-eq : (e : Option ℕ) → is_at l.self e ≡ true → e ≡ some l.self
  is_at-eq none h = absurd (false-true h)
  is_at-eq (some a) h = ap some ((==_iff a l.self).0 h)

  eq-is_at : (e : Option ℕ) → e ≡ some l.self → is_at l.self e ≡ true
  eq-is_at e h = rw (h, ==_refl l.self) refl

  left_of :
      (q : ℕ) (x : Option Function)
      → l.heap q ≡ x
      → (if listed q l.items then none else x) ≡ others l.self x
  left_of q none at = elim (Bool-cases (listed q l.items)) [ inl e ↦ rw e refl | inr e ↦ rw e refl ]
  left_of q (some item) at = elim (Bool-cases (listed q l.items)) [
    | inl e ↦ rw (e, eq-is_at item.endpoint (listed-owner q item at e)) refl
    | inr e ↦ elim (Bool-cases (is_at l.self item.endpoint)) [
      | inl f ↦ absurd (false-true (sym e ∙ owner-listed q item at (is_at-eq item.endpoint f)))
      | inr f ↦ rw (e, f) refl
    ]
  ]

  -- All items of the endpoint are deleted, and no other.
  pub clear_items_lem :
      (l' : Local) × (clear_items l ≡ ok l')
      × (l'.items ≡ [])
      × ((q : ℕ) → l'.heap q ≡ others l.self (l.heap q))
  unfolding clear_items
  clear_items_lem =
      let (l1, e, heap) = delete_all_lem l.items l map registry-Leads in
      (
        no_items l1,
        ap (λ r. r >>= (λ l2. ok (no_items l2))) e,
        refl,
        λ q. heap q ∙ left_of q (l.heap q) refl,
      )
