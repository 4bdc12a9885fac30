-- ===== src/Rpc/Endpoint/Gone.antt =====
-- The end of a local endpoint, with its items and its remote endpoints.
use libremo.Prelude.{
  ℕ, ◌≡◌, ◌≢◌, refl, ap, arith, ◌∙◌, true, false, List, [], ◌∷◌, ◌==◌, if◌then◌else◌, Option, none,
  some, Bool-cases, inl, inr, All, has, Distinct, subst,
}
use libremo.Error.{ok, ◌>>=◌}
use libremo.Packet.{Packet}
use libremo.Rpc.Registry.Ownership.{IsRegistry}
use libremo.Rpc.Registry.Clear.{IsMap, others, clear_items_lem}
use libremo.Rpc.Pool.{Pool, destroy, destroy_pool}
use libremo.Rpc.Remote.{Remote, after_result, destroy_remote}
use libremo.Rpc.Endpoint.{
  Endpoint, put_remote, no_throw, delete_remote, delete_remotes, clear_remotes, destroy_local,
}
use libremo.Rpc.Endpoint.Served.{IsIdle, IsSpare}

destroy_pool_lem : (pool : Pool Packet) → All IsSpare pool → destroy_pool pool ≡ ok tt
unfolding destroy_pool destroy
destroy_pool_lem [] h = refl
destroy_pool_lem (x ∷ rest) ((f, e), h) = rw (e, destroy_pool_lem rest h) refl

destroy_remote_lem : (s : Remote) → IsIdle s → destroy_remote s ≡ ok tt
unfolding destroy_remote after_result
destroy_remote_lem s idle = rw idle.no_result (destroy_pool_lem s.packet_pool idle.spare)

-- There is an idle remote endpoint at this address.
abbrev pub IsIdleAt : (ℕ → Option Remote) → ℕ → Type 0
IsIdleAt heap p = (s : Remote) × (heap p ≡ some s) × IsIdle s

-- What is left at an address when the remote endpoints of the list are gone.
abbrev pub kept : List ℕ → (ℕ → Option Remote) → ℕ → Option Remote
kept remotes heap q = if has q remotes then none else heap q

abbrev deleted : Endpoint → ℕ → Endpoint
deleted e p = record e { heap = put_remote e.heap p none }

delete_remote-eq :
    (e : Endpoint) (p : ℕ) → IsIdleAt e.heap p → delete_remote p (e.heap p) e ≡ ok (deleted e p)
unfolding delete_remote
delete_remote-eq e p (s, at, idle) = rw (at, destroy_remote_lem s idle) refl

true-false : true ≢ false
true-false h = cc

IsIdleAt-put :
    (heap : ℕ → Option Remote) (p : ℕ) (qs : List ℕ)
    → has p qs ≡ false
    → All (IsIdleAt heap) qs
    → All (IsIdleAt (put_remote heap p none)) qs
IsIdleAt-put heap p [] a h = tt
IsIdleAt-put heap p (q ∷ qs) a ((s, at, idle), h) = elim (Bool-cases (q == p)) [
  | inl e ↦ absurd (true-false (subst (λ b. (if b then true else has p qs) ≡ false) e a))
  | inr e ↦ (
    (s, rw e at, idle),
    IsIdleAt-put heap p qs (subst (λ b. (if b then true else has p qs) ≡ false) e a) h,
  )
]

==_swap : (a b : ℕ) → (a == b) ≡ (b == a)
==_swap a b = ground arith

kept-step :
    (e : Endpoint) (p : ℕ) (ps : List ℕ) (q : ℕ)
    → kept ps (deleted e p).heap q ≡ kept (p ∷ ps) e.heap q
kept-step e p ps q = elim (Bool-cases (q == p)) [
  | inl f ↦ elim (Bool-cases (has q ps)) [
    | inl g ↦ rw (==_swap p q, f, g) refl
    | inr g ↦ rw (==_swap p q, f, g) refl
  ]
  | inr f ↦ elim (Bool-cases (has q ps)) [
    | inl g ↦ rw (==_swap p q, f, g) refl
    | inr g ↦ rw (==_swap p q, f, g) refl
  ]
]

delete_remotes_lem :
    (ps : List ℕ) (e : Endpoint)
    → Distinct ps
    → All (IsIdleAt e.heap) ps
    → (e' : Endpoint) × (delete_remotes ps e ≡ ok e')
      × (e'.local ≡ e.local)
      × ((q : ℕ) → e'.heap q ≡ kept ps e.heap q)
unfolding delete_remotes
delete_remotes_lem [] e d h = (e, refl, refl, λ q. refl)
delete_remotes_lem (p ∷ ps) e (apart, d) (here, h) =
    let (e', ends, same, heap) =
      delete_remotes_lem ps (deleted e p) d (IsIdleAt-put e.heap p ps apart h) in
    (
      e',
      ap (λ r. r >>= (λ e1. delete_remotes ps e1)) (delete_remote-eq e p here) ∙ ends,
      same,
      λ q. heap q ∙ kept-step e p ps q,
    )

abbrev no_remotes : Endpoint → Endpoint
no_remotes e = record e { remotes = [] }

clear_remotes_lem :
    (e : Endpoint)
    → Distinct e.remotes
    → All (IsIdleAt e.heap) e.remotes
    → (e' : Endpoint) × (clear_remotes e ≡ ok e')
      × (e'.local ≡ e.local)
      × (e'.remotes ≡ [])
      × ((q : ℕ) → e'.heap q ≡ kept e.remotes e.heap q)
unfolding clear_remotes
clear_remotes_lem e d h =
    let (e1, ends, same, heap) = delete_remotes_lem e.remotes e d h in
    (no_remotes e1, ap (λ r. r >>= (λ e2. ok (no_remotes e2))) ends, same, refl, heap)

-- With its remote endpoints idle, in its list once each, and its items under different names in
-- a registry, the destructor of a local endpoint ends without an exception: exactly its own
-- functions are deleted, and exactly the remote endpoints that it lists.
pub destroy_local_lem :
    (e : Endpoint)
    → IsRegistry e.local
    → IsMap e.local.items
    → Distinct e.remotes
    → All (IsIdleAt e.heap) e.remotes
    → (e' : Endpoint) × (destroy_local e ≡ ok e')
      × (e'.local.items ≡ [])
      × (e'.remotes ≡ [])
      × ((p : ℕ) → e'.local.heap p ≡ others e.local.self (e.local.heap p))
      × ((q : ℕ) → e'.heap q ≡ kept e.remotes e.heap q)
unfolding destroy_local
destroy_local_lem e v m d h =
    let (l, cleared, empty, items) = clear_items_lem e.local v m in
    let (e', ends, local, none_left, remotes) = clear_remotes_lem (record e { local = l }) d h in
    (
      e',
      ap (λ r. no_throw r >>= (λ l1. no_throw (clear_remotes (record e { local = l1 })))) cleared
          ∙ ap no_throw ends,
      ap (λ x. x.items) local ∙ empty,
      none_left,
      λ p. ap (λ x. x.heap p) local ∙ items p,
      remotes,
    )
