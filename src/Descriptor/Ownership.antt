-- ===== src/Descriptor/Ownership.antt =====
-- Every open descriptor belongs to one socket.
use libremo.Prelude.{
  ℕ, ◌≡◌, ◌⊎◌, refl, sym, ap, ◌∙◌, subst, Bool, true, false, List, [], ◌∷◌, ◌==◌, if◌then◌else◌,
  Bool-cases, inl, inr, Option, none, some, has, without, Distinct, Distinct-without, has-without,
  has-without_of, ==_iff, ==_refl, arith,
}
use libremo.Error.{ErrorCode}
use libremo.Descriptor.{Files, set_sockfd, close_at, hold_new}

-- A socket's descriptor is open, no two sockets have the same one, and there is no open one without a socket.
pub record IsOwned (f : Files) : Type 0 where
  pub is_open : (a fd : ℕ) → f.holder a ≡ some fd → has fd f.opened ≡ true
  pub once : (a b fd : ℕ) → f.holder a ≡ some fd → f.holder b ≡ some fd → a ≡ b
  pub kept : (fd : ℕ) → has fd f.opened ≡ true → (a : ℕ) × (f.holder a ≡ some fd)
  pub distinct : Distinct f.opened

has-without_other :
    (a c : ℕ) (bs : List ℕ) → (a == c) ≡ false → has c bs ≡ true → has c (without a bs) ≡ true
has-without_other a c [] n h = h
has-without_other a c (b ∷ bs) n h = elim (Bool-cases (b == a)) [
  | inl k ↦
      let l : (b == c) ≡ false = subst (λ x. (x == c) ≡ false) (sym ((==_iff b a).0 k)) n in
      rw k (subst (λ t. (if t then true else has c bs) ≡ true) l h)
  | inr k ↦ elim (Bool-cases (b == c)) [
    | inl l ↦ rw (k, l) refl
    | inr l ↦
        rw (k, l)
          (has-without_other a c bs n (subst (λ t. (if t then true else has c bs) ≡ true) l h))
  ]
]

-- What a socket holds behind a change of another or of itself.
pub set-cases :
    (a b fd : ℕ) (o : Option ℕ) (f : Files)
    → (set_sockfd a o f).holder b ≡ some fd
    → ((a ≡ b) × (o ≡ some fd)) ⊎ (((a == b) ≡ false) × (f.holder b ≡ some fd))
set-cases a b fd o f e = elim (Bool-cases (a == b)) [
  | inl k ↦ inl ((==_iff a b).0 k, subst (λ t. (if t then o else f.holder b) ≡ some fd) k e)
  | inr k ↦ inr (k, subst (λ t. (if t then o else f.holder b) ≡ some fd) k e)
]

pub set-other :
    (a b : ℕ) (o : Option ℕ) (f : Files)
    → (a == b) ≡ false
    → (set_sockfd a o f).holder b ≡ f.holder b
set-other a b o f k = ap (λ t. if t then o else f.holder b) k

pub set-same : (a : ℕ) (o : Option ℕ) (f : Files) → (set_sockfd a o f).holder a ≡ o
set-same a o f = ap (λ t. if t then o else f.holder a) (==_refl a)

pub same-fd : (o : Option ℕ) (x y : ℕ) → o ≡ some x → o ≡ some y → x ≡ y
same-fd o x y e e' = ap (value x) (sym e ∙ e')
  where
    value : ℕ → Option ℕ → ℕ
    value d none = d
    value d (some z) = z

has-later : (x y : ℕ) (bs : List ℕ) → has x bs ≡ true → has x (y ∷ bs) ≡ true
has-later x y bs h = elim (Bool-cases (y == x)) [ inl k ↦ rw k refl | inr k ↦ rw (k, h) refl ]

has-before : (a c : ℕ) (bs : List ℕ) → has c (without a bs) ≡ true → has c bs ≡ true
has-before a c bs h = elim (Bool-cases (has c bs)) [
  | inl k ↦ k
  | inr k ↦ let f : false ≡ true = sym (has-without_of a c bs k) ∙ h in absurd (ground arith)
]

pub close_at-IsOwned :
    (o : Option ℕ) (failed : Bool) (a : ℕ) (f : Files)
    → f.holder a ≡ o
    → IsOwned f
    → IsOwned (close_at o failed a f).0 × ((close_at o failed a f).0.holder a ≡ none)
unfolding close_at
close_at-IsOwned none failed a f h v = (v, h)
close_at-IsOwned (some fd) failed a f h v = (
  record {
    is_open = λ b x e. elim (set-cases a b x none f e) [
      | inl (_, n) ↦ absurd (cc)
      | inr (k, e') ↦ has-without_other fd x f.opened (other b x k e') (v.is_open b x e')
    ];
    once = λ b c x e e'. elim (set-cases a b x none f e) [
      | inl (_, n) ↦ absurd (cc)
      | inr (_, l) ↦ elim (set-cases a c x none f e') [
        | inl (_, n) ↦ absurd (cc)
        | inr (_, l') ↦ v.once b c x l l'
      ]
    ];
    kept = λ x e.
        let (b, held) = v.kept x (has-before fd x f.opened e) in
        elim (Bool-cases (a == b)) [
          | inl k ↦
              let same : fd ≡ x =
                same-fd (f.holder a) fd x h (ap f.holder ((==_iff a b).0 k) ∙ held) in
              let gone : false ≡ true =
                sym (has-without fd f.opened v.distinct)
                ∙ ap (λ y. has y (without fd f.opened)) same
                ∙ e in
              absurd (ground arith)
          | inr k ↦ (b, set-other a b none f k ∙ held)
        ];
    distinct = Distinct-without fd f.opened v.distinct;
  },
  set-same a none f,
)
  where
    other : (b x : ℕ) → (a == b) ≡ false → f.holder b ≡ some x → (fd == x) ≡ false
    other b x k e = elim (Bool-cases (fd == x)) [
      | inl l ↦
          let same : a ≡ b = v.once a b x (h ∙ ap some ((==_iff fd x).0 l)) e in
          absurd (ground arith)
      | inr l ↦ l
    ]

pub hold_new-IsOwned :
    (e : ErrorCode) (o : Option ℕ) (a : ℕ) (f : Files)
    → f.holder a ≡ none
    → ((fd : ℕ) → o ≡ some fd → has fd f.opened ≡ false)
    → IsOwned f
    → IsOwned (hold_new e o a f).0
unfolding hold_new
hold_new-IsOwned e none a f h fresh v = v
hold_new-IsOwned e (some fd) a f h fresh v = record {
  is_open = λ b x l. elim (set-cases a b x (some fd) f l) [
    | inl (_, m) ↦ rw (same-fd (some fd) fd x refl m, ==_refl x) refl
    | inr (_, m) ↦ has-later x fd f.opened (v.is_open b x m)
  ];
  once = λ b c x l l'. elim (set-cases a b x (some fd) f l) [
    | inl (k, m) ↦ elim (set-cases a c x (some fd) f l') [
      | inl (k', m') ↦ sym k ∙ k'
      | inr (k', m') ↦ absurd (clash c x m m')
    ]
    | inr (k, m) ↦ elim (set-cases a c x (some fd) f l') [
      | inl (k', m') ↦ absurd (clash b x m' m)
      | inr (k', m') ↦ v.once b c x m m'
    ]
  ];
  kept = λ x l. elim (Bool-cases (fd == x)) [
    | inl k ↦ (a, set-same a (some fd) f ∙ ap some ((==_iff fd x).0 k))
    | inr k ↦
        let (b, held) = v.kept x (subst (λ t. (if t then true else has x f.opened) ≡ true) k l) in
        elim (Bool-cases (a == b)) [
          | inl m ↦
              let n : none ≡ some x = sym h ∙ ap f.holder ((==_iff a b).0 m) ∙ held in absurd (cc)
          | inr m ↦ (b, set-other a b (some fd) f m ∙ held)
        ]
  ];
  distinct = (fresh fd refl, v.distinct);
}
  where
    clash : (b x : ℕ) → some fd ≡ some x → f.holder b ≡ some x → ⊥
    clash b x m l =
        let both : true ≡ false =
          sym (v.is_open b x l)
          ∙ ap (λ y. has y f.opened) (sym (same-fd (some fd) fd x refl m))
          ∙ fresh fd refl in
        ground arith
