-- ===== src/Descriptor/Calls.antt =====
-- The members of a socket keep the ownership of descriptors.
use libremo.Prelude.{
  ℕ, ◌≡◌, ◌⊎◌, refl, sym, ap, ◌∙◌, Bool, false, ◌==◌, Bool-cases, inl, inr, Option, none, some, has,
  ==_iff, arith,
}
use libremo.Error.{ErrorCode, err_socket_open_failed, err_socket_syscall_failed}
use libremo.SockAddr.{AddrFamily}
use libremo.Descriptor.{
  Files, Outcome, SockProto, set_sockfd, close_socket, unless_thrown, hold_new, open_socket,
  accept_socket, accept_logged, move_socket, assign_socket, unsupported, family_or,
}
use libremo.Descriptor.Ownership.{
  IsOwned, close_at-IsOwned, hold_new-IsOwned, set-cases, set-other, set-same,
}

-- Who holds a descriptor behind a move: the target has what the other had.
moved-cases :
    (a other b fd : ℕ) (f : Files)
    → (move_socket a other f).holder b ≡ some fd
    → ((a ≡ b) × (f.holder other ≡ some fd)) ⊎ (((other == b) ≡ false) × (f.holder b ≡ some fd))
moved-cases a other b fd f e =
    elim (set-cases other b fd none (set_sockfd a (f.holder other) f) e) [
      | inl (_, n) ↦ absurd (cc)
      | inr (k, e') ↦ elim (set-cases a b fd (f.holder other) f e') [
        | inl (m, l) ↦ inl (m, l)
        | inr (_, l) ↦ inr (k, l)
      ]
    ]

move-IsOwned :
    (a other : ℕ) (f : Files)
    → (other == a) ≡ false
    → f.holder a ≡ none
    → IsOwned f
    → IsOwned (move_socket a other f)
move-IsOwned a other f apart h v = record {
  is_open = λ b x e. elim (moved-cases a other b x f e) [
    | inl (_, l) ↦ v.is_open other x l
    | inr (_, l) ↦ v.is_open b x l
  ];
  once = λ b c x e e'. elim (moved-cases a other b x f e) [
    | inl (m, l) ↦ elim (moved-cases a other c x f e') [
      | inl (m', l') ↦ sym m ∙ m'
      | inr (k', l') ↦ absurd (differ c k' (v.once other c x l l'))
    ]
    | inr (k, l) ↦ elim (moved-cases a other c x f e') [
      | inl (m', l') ↦ absurd (differ b k (v.once other b x l' l))
      | inr (k', l') ↦ v.once b c x l l'
    ]
  ];
  kept = λ x e.
      let (b, held) = v.kept x e in
      elim (Bool-cases (other == b)) [
        | inl k ↦ (
          a,
          set-other other a none (set_sockfd a (f.holder other) f) apart
              ∙ set-same a (f.holder other) f
              ∙ ap f.holder ((==_iff other b).0 k)
              ∙ held,
        )
        | inr k ↦ elim (Bool-cases (a == b)) [
          | inl m ↦
              let n : none ≡ some x = sym h ∙ ap f.holder ((==_iff a b).0 m) ∙ held in absurd (cc)
          | inr m ↦ (
            b,
            set-other other b none (set_sockfd a (f.holder other) f) k
                ∙ set-other a b (f.holder other) f m
                ∙ held,
          )
        ]
      ];
  distinct = v.distinct;
}
  where
    differ : (b : ℕ) → (other == b) ≡ false → other ≡ b → ⊥
    differ b k e = ground arith

-- A call of a member: the socket's address, and what the system calls return.
pub data Call : Type 0 where
  closes : Bool → ℕ → Call
  opens : AddrFamily → AddrFamily → SockProto → Bool → Option ℕ → ℕ → Call
  accepts : Option ℕ → Option ErrorCode → ℕ → Call
  moves : ℕ → ℕ → Call
  assigns : Bool → ℕ → ℕ → Call

unfoldable pub do_call : Call → Files → Outcome
unfolding close_socket open_socket accept_socket assign_socket
do_call (closes failed a) f = close_socket failed a f
do_call (opens localhost family proto failed sockfd a) f =
    open_socket localhost family proto failed sockfd a f
do_call (accepts sockfd logged a) f = accept_socket sockfd logged a f
do_call (moves a other) f = (move_socket a other f, none)
do_call (assigns failed a other) f = assign_socket failed a other f

-- The system returns a descriptor that is not open at the time, a socket that is created holds none yet, and no socket
-- is moved to itself.
abbrev pub IsPossible : Call → Files → Type 0
IsPossible (closes failed a) f = Unit
IsPossible (opens localhost family proto failed sockfd a) f =
    (fd : ℕ) → sockfd ≡ some fd → has fd (close_socket failed a f).0.opened ≡ false
IsPossible (accepts sockfd logged a) f =
    (f.holder a ≡ none) × ((fd : ℕ) → sockfd ≡ some fd → has fd f.opened ≡ false)
IsPossible (moves a other) f = ((other == a) ≡ false) × (f.holder a ≡ none)
IsPossible (assigns failed a other) f = (other == a) ≡ false

close-IsOwned :
    (failed : Bool) (a : ℕ) (f : Files)
    → IsOwned f
    → IsOwned (close_socket failed a f).0 × ((close_socket failed a f).0.holder a ≡ none)
unfolding close_socket
close-IsOwned failed a f v = close_at-IsOwned (f.holder a) failed a f refl v

-- An exception leaves what there is by then, and otherwise the next step follows.
step-IsOwned :
    (m : Outcome) (k : Files → Outcome)
    → IsOwned m.0
    → IsOwned (k m.0).0
    → IsOwned (unless_thrown m k).0
unfolding unless_thrown
step-IsOwned (f, none) k v w = w
step-IsOwned (f, some e) k v w = v

accept_logged-IsOwned :
    (logged : Option ErrorCode) (a : ℕ) (f : Files)
    → IsOwned f
    → IsOwned (accept_logged logged a f).0
unfolding accept_logged
accept_logged-IsOwned none a f v = v
accept_logged-IsOwned (some e) a f v = (close-IsOwned false a f v).0

-- Whether a call that opens, closes, accepts, moves or assigns a socket returns or throws, every
-- open descriptor belongs to one socket behind it, as before, and to no other, provided that a
-- descriptor from the system is not open yet, that a socket that is created holds none, and that
-- no socket is moved to itself.
pub do_call-IsOwned : (k : Call) (f : Files) → IsPossible k f → IsOwned f → IsOwned (do_call k f).0
unfolding do_call open_socket accept_socket assign_socket
do_call-IsOwned (closes failed a) f possible v = (close-IsOwned failed a f v).0
do_call-IsOwned (accepts sockfd logged a) f (h, fresh) v =
    let w = hold_new-IsOwned err_socket_syscall_failed sockfd a f h fresh v in
    step-IsOwned (hold_new err_socket_syscall_failed sockfd a f) (accept_logged logged a) w
      (accept_logged-IsOwned logged a (hold_new err_socket_syscall_failed sockfd a f).0 w)
do_call-IsOwned (moves a other) f (apart, h) v = move-IsOwned a other f apart h v
do_call-IsOwned (assigns failed a other) f apart v =
    let (w, h) = close-IsOwned failed a f v in
    step-IsOwned (close_socket failed a f) (λ f1. (move_socket a other f1, none)) w
      (move-IsOwned a other (close_socket failed a f).0 apart h w)
do_call-IsOwned (opens localhost family proto failed sockfd a) f fresh v =
    let (w, h) = close-IsOwned failed a f v in
    step-IsOwned (f, unsupported (family_or localhost family) proto)
      (λ f1. unless_thrown (close_socket failed a f1) (hold_new err_socket_open_failed sockfd a)) v
      (step-IsOwned (close_socket failed a f) (hold_new err_socket_open_failed sockfd a) w
        (hold_new-IsOwned err_socket_open_failed sockfd a (close_socket failed a f).0 h fresh w))
