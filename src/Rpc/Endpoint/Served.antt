-- ===== src/Rpc/Endpoint/Served.antt =====
-- From bind over connect to a remote call: what a caller gets from a function of a local endpoint.
use libremo.Prelude.{
  ℕ, zero, suc, ◌+◌, ◌≤◌, ◌≡◌, ◌≢◌, refl, ap, ◌∙◌, true, false, List, [], ◌∷◌, ◌++◌, ==_refl, map,
  All, arith, length, none, some, Option, sym,
}
use libremo.Error.{Result, ok, ◌>>=◌}
use libremo.Types.{TypedValue, TypeId, type_code}
use libremo.Packet.{Packet}
use libremo.Packet.Layout.{IsFresh, new_packet-IsFresh}
use libremo.Writer.{Arg}
use libremo.Writer.Encoding.{encode_call}
use libremo.Writer.Results.{Value, typed_of, typed_of_arg, encode_result}
use libremo.Reader.Decoding.{IsPortable, IsPortableValue}
use libremo.Reader.Packets.{updated_args, SameShapes}
use libremo.Rpc.Item.{is_valid_name}
use libremo.Rpc.Item.Calls.{codes_of}
use libremo.Rpc.Registry.{Local, find_item, bind, call}
use libremo.Rpc.Registry.Ownership.{IsRegistry, none-some}
use libremo.Rpc.Registry.Names.{lookup-cons_other}
use libremo.Rpc.Registry.Bind.{bound, bind-eq, bound-IsRegistry, call-bound, is_valid_name-nonzero}
use libremo.Rpc.Pool.{Pool, add}
use libremo.Rpc.Remote.{
  Owned, Remote, Outcome, returns, and_then, alloc_some, packet_pool_size, new_remote, remote_call,
}
use libremo.Rpc.Remote.Loopback.{remote_call_lem}
use libremo.Rpc.Endpoint.{Endpoint, add_remote, connect, put_remote}

-- A packet in the pool: empty, and with no way back to it.
abbrev pub IsSpare : Owned → Type 0
IsSpare x = IsFresh 128 x.object × (x.pooled ≡ false)

-- A remote endpoint with no call under way: all its packets are in the pool.
pub record IsIdle (s : Remote) : Type 0 where
  pub spare : All IsSpare s.packet_pool
  pub all : length s.packet_pool ≡ packet_pool_size
  pub no_result : s.received_result ≡ none

alloc_some_lem :
    (n : ℕ) (pool : Pool Packet)
    → All IsSpare pool
    → (q : Pool Packet) × (alloc_some n pool ≡ ok q) × All IsSpare q × (length q ≡ n + length pool)
unfolding alloc_some add
alloc_some_lem zero pool h = (pool, refl, h, omega arith)
alloc_some_lem (suc n) pool h =
    let (p, made, fresh) = new_packet-IsFresh in
    let x : Owned = record { object = p; pooled = false } in
    let (q, e, spare, size) = alloc_some_lem n (x ∷ pool) ((fresh, refl), h) in
    (
      q,
      ap (λ r. r >>= (λ y. alloc_some n (add (record { object = y; pooled = false }) pool))) made
          ∙ e,
      spare,
      omega (arith, size),
    )

pub new_remote-IsIdle : (s : Remote) × (new_remote ≡ ok s) × IsIdle s
unfolding new_remote
new_remote-IsIdle =
    let (q, e, spare, size) = alloc_some_lem packet_pool_size [] tt in
    (
      record { packet_pool = q; received_result = none },
      ap (λ r. r >>= (λ pool. ok (record { packet_pool = pool; received_result = none }))) e,
      record { spare = spare; all = omega (arith, size); no_result = refl },
    )

abbrev connected : Endpoint → ℕ → Remote → Endpoint
connected e p s = record e { remotes = e.remotes ++ (p ∷ []); heap = put_remote e.heap p (some s) }

pub connect_lem :
    (e : Endpoint) (p : ℕ)
    → (e' : Endpoint) × (connect p e ≡ ok e')
      × (e'.local ≡ e.local)
      × (e'.remotes ≡ e.remotes ++ (p ∷ []))
      × (s : Remote) × (e'.heap p ≡ some s)
      × IsIdle s
unfolding connect add_remote
connect_lem e p =
    let (s, made, idle) = new_remote-IsIdle in
    (
      connected e p s,
      ap (λ r. r >>= (λ remote. ok (connected e p remote))) made,
      refl,
      refl,
      s,
      rw (==_refl p) refl,
      idle,
    )

-- `n` calls, and then another one, whose result it is.
abbrev pub call_again : ℕ → Local → List ℕ → List Arg → Remote → Outcome (TypedValue × List Arg)
call_again zero l name args s = remote_call 2 l name args s
call_again (suc n) l name args s =
    and_then (remote_call 2 l name args s) (λ r s1. call_again n l name args s1)

module _ (l : Local) (name : List ℕ) (args sent : List Arg) (value : Value)
    (letters : All (λ c. c ≢ 0) name) (pa : All IsPortable args) (pv : IsPortableValue value)
    (ps : All IsPortable sent) (same : SameShapes args sent)
    (called : call name (map typed_of_arg args) l ≡ ok (typed_of value, map typed_of_arg sent))
    (room_x : length (encode_call name args) ≤ 896)
    (room_y : length (encode_result value sent) ≤ 896) where
  from_pool :
      (pool : Pool Packet) (r : Option Owned)
      → All IsSpare pool
      → length pool ≡ packet_pool_size
      → r ≡ none
      → (s' : Remote) × (remote_call 2 l name args
            (record { packet_pool = pool; received_result = r })
          ≡ returns (typed_of value, updated_args args sent) s')
        × IsIdle s'
  from_pool pool (some x) h n e = absurd (none-some x (sym e))
  from_pool [] none h n e = absurd (omega (arith, n))
  from_pool (x ∷ []) none h n e = absurd (omega (arith, n))
  from_pool (x ∷ y ∷ rest) none ((fx, px), ((fy, py), h)) n e =
      let (x', y', ends, fx', fy', px', py') =
        remote_call_lem l name args sent value y rest letters pa pv ps same called 0 x fx fy room_x
          room_y in
      (
        record { packet_pool = x' ∷ y' ∷ rest; received_result = none },
        ends,
        record { spare = ((fx', px'), ((fy', py'), h)); all = n; no_result = refl },
      )

  answers :
      (n : ℕ) (s : Remote)
      → IsIdle s
      → (s' : Remote) × (call_again n l name args s
          ≡ returns (typed_of value, updated_args args sent) s')
        × IsIdle s'
  answers zero s idle = from_pool s.packet_pool s.received_result idle.spare idle.all idle.no_result
  answers (suc n) s idle =
      let (s1, ends, idle1) =
        from_pool s.packet_pool s.received_result idle.spare idle.all idle.no_result in
      let (s', rest, idle') = answers n s1 idle1 in
      (s', ap (λ r. and_then r (λ u s2. call_again n l name args s2)) ends ∙ rest, idle')

-- Binding a function under a valid name that is not taken, at an address that is free, and then
-- connecting succeed and keep the registry, and another name leads where it led. A call through
-- the new remote endpoint, with portable arguments of the function's types for which the
-- function returns, leaves portable values of the same shapes behind the pointers, and both
-- messages fit into their packets, gives the caller the function's result and what it left
-- behind the pointers, however often it was called before, and leaves all packets in the pool.
pub bind-connect-call :
    (e : Endpoint) (p q : ℕ) (name : List ℕ) (result_type : TypeId) (param_types : List TypeId)
    (body : List TypedValue → Result (TypedValue × List TypedValue)) (args sent : List Arg)
    (value : Value) (n : ℕ) (other : List ℕ)
    → IsRegistry e.local
    → e.local.heap p ≡ none
    → is_valid_name name ≡ true
    → find_item name e.local ≡ none
    → other ≢ name
    → All IsPortable args
    → IsPortableValue value
    → All IsPortable sent
    → SameShapes args sent
    → codes_of (map typed_of_arg args) ≡ map type_code param_types
    → body (map typed_of_arg args) ≡ ok (typed_of value, map typed_of_arg sent)
    → length (encode_call name args) ≤ 896
    → length (encode_result value sent) ≤ 896
    → (l : Local) × (bind p name result_type param_types body e.local ≡ ok l)
      × IsRegistry l
      × (find_item other l ≡ find_item other e.local)
      × (e' : Endpoint) × (connect q (record e { local = l }) ≡ ok e')
      × (e'.local ≡ l)
      × (e'.remotes ≡ e.remotes ++ (q ∷ []))
      × (s : Remote) × (e'.heap q ≡ some s)
      × IsIdle s
      × (s' : Remote) × (call_again n l name args s
          ≡ returns (typed_of value, updated_args args sent) s')
      × IsIdle s'
unfolding find_item
bind-connect-call e p q name rt ts body args sent value n other v unused valid new differ pa pv ps
      same typed does room_x room_y =
    let l = bound e.local p name rt ts body v unused valid new in
    let (e', made, local, listed, s, at, idle) = connect_lem (record e { local = l }) q in
    let called = call-bound e.local p name rt ts body v unused valid new _ typed ∙ does in
    let (s', ends, idle') =
      answers l name args sent value (is_valid_name-nonzero name valid) pa pv ps same called room_x
        room_y n s idle in
    (
      l,
      bind-eq e.local p name rt ts body v unused valid new,
      bound-IsRegistry e.local p name rt ts body v unused valid new,
      lookup-cons_other other name p e.local.items differ,
      e',
      made,
      local,
      listed,
      s,
      at,
      idle,
      s',
      ends,
      idle',
    )
