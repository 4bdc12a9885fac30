-- ===== src/Rpc/Remote/Kept.antt =====
-- Where the packets of a remote endpoint are: none gets lost, on whichever way a call ends.
use libremo.Prelude.{
  ℕ, zero, suc, ◌+◌, ◌≡◌, refl, subst, ◌∙◌, List, [], ◌∷◌, ◌==◌, arith, length, Option, none, some,
  Bool-cases, inl, inr,
}
use libremo.Error.{ErrorCode, Result, ok, error, fault, timeout}
use libremo.Packet.{Packet, get_size, packet_call, packet_result}
use libremo.Writer.{Writer, Arg, write_call, write_result}
use libremo.Types.{TypedValue}
use libremo.Rpc.Registry.{Local}
use libremo.Rpc.Registry
use libremo.Reader.{read_uint8, read_call, read_result}
use libremo.Codec.{payload_writer, payload_reader, written}
use libremo.Rpc.Pool.{Pool, recycle}
use libremo.Rpc.Remote.{
  Owned, Remote, Outcome, Handler, returns, throws, terminates, unfinished, and_then, lift, release,
  give_back, at_end_of_scope, pass_on, take_packet, handle_result, handle_call, handle_packet,
  read_reply, remote_call, reply_written, read_from, dispatch, send_reply, send_call, call_written,
}

abbrev pub count_of : Option Owned → ℕ
count_of none = 0
count_of (some x) = 1

-- The packets that the endpoint has: in its pool, or as a result that was received.
abbrev pub held : Remote → ℕ
held s = length s.packet_pool + count_of s.received_result

-- The endpoint has `n` packets, when there is a value or an exception.
abbrev pub Holds : {A : Type 0} → ℕ → Outcome A → Type 0
Holds n (returns a s) = held s ≡ n
Holds n (throws e s) = held s ≡ n
Holds n terminates = Unit {0}
Holds n unfinished = Unit {0}

-- The same with what a handler leaves to its caller.
abbrev pub HoldsWith : ℕ → Outcome (Option Owned) → Type 0
HoldsWith n (returns left s) = held s + count_of left ≡ n
HoldsWith n (throws e s) = held s + 1 ≡ n
HoldsWith n terminates = Unit {0}
HoldsWith n unfinished = Unit {0}

abbrev pool_of : Pool Packet → Option Owned → Remote
pool_of pool r = record { packet_pool = pool; received_result = r }

abbrev Keeps : Handler → Type 0
Keeps h = (x : Owned) (s : Remote) → HoldsWith (held s + 1) (h x s)

release_lem :
    {A : Type 0} (P : Outcome A → Type 0) (x : Option Owned) (k : Remote → Outcome A) (s : Remote)
    → P terminates
    → ((s' : Remote) → held s' ≡ held s + count_of x → P (k s'))
    → P (release x k s)
unfolding release give_back recycle
release_lem P none k s t h = h s (omega arith)
release_lem P (some x) k s t h = elim (Bool-cases x.pooled) [
  | inl e ↦ rw (e, recycle) (h _ (omega arith))
  | inr e ↦ rw (e, recycle) t
]

at_end_of_scope-Holds :
    {A : Type 0} (m n : ℕ) (x : Option Owned) (o : Outcome A)
    → Holds m o
    → m + count_of x ≡ n
    → Holds n (at_end_of_scope x o)
at_end_of_scope-Holds m n x (returns a s) h e =
    release_lem (Holds n) x (returns a) s tt (λ s' g. omega arith)
at_end_of_scope-Holds m n x (throws c s) h e =
    release_lem (Holds n) x (throws c) s tt (λ s' g. omega arith)
at_end_of_scope-Holds m n x terminates h e = tt
at_end_of_scope-Holds m n x unfinished h e = tt

and_then-Holds :
    {A B : Type 0} (n : ℕ) (o : Outcome A) (k : A → Remote → Outcome B)
    → Holds n o
    → ((a : A) (s : Remote) → held s ≡ n → Holds n (k a s))
    → Holds n (and_then o k)
and_then-Holds n (returns a s) k h g = g a s h
and_then-Holds n (throws c s) k h g = h
and_then-Holds n terminates k h g = tt
and_then-Holds n unfinished k h g = tt

and_then-HoldsWith :
    {A : Type 0} (n : ℕ) (o : Outcome A) (k : A → Remote → Outcome (Option Owned))
    → Holds n o
    → ((a : A) (s : Remote) → held s ≡ n → HoldsWith (n + 1) (k a s))
    → HoldsWith (n + 1) (and_then o k)
and_then-HoldsWith n (returns a s) k h g = g a s h
and_then-HoldsWith n (throws c s) k h g = omega arith
and_then-HoldsWith n terminates k h g = tt
and_then-HoldsWith n unfinished k h g = tt

lift-Holds : {A : Type 0} (n : ℕ) (r : Result A) (s : Remote) → held s ≡ n → Holds n (lift r s)
lift-Holds n (ok a) s h = h
lift-Holds n (error e) s h = h
lift-Holds n fault s h = tt
lift-Holds n timeout s h = tt

take_pool_lem :
    {A : Type 0} (P : Outcome A → Type 0) (k : Owned → Remote → Outcome A) (pool : Pool Packet)
    (r : Option Owned)
    → ((e : ErrorCode) → P (throws e (pool_of pool r)))
    → ((x : Owned) (s' : Remote) → held s' + 1 ≡ held (pool_of pool r) → P (k x s'))
    → P (and_then (take_packet (pool_of pool r)) k)
unfolding take_packet
take_pool_lem P k [] r t h = t _
take_pool_lem P k (x ∷ rest) r t h = h _ _ (omega arith)

take_packet_lem :
    {A : Type 0} (P : Outcome A → Type 0) (k : Owned → Remote → Outcome A) (s : Remote)
    → ((e : ErrorCode) → P (throws e s))
    → ((x : Owned) (s' : Remote) → held s' + 1 ≡ held s → P (k x s'))
    → P (and_then (take_packet s) k)
take_packet_lem P k s t h = take_pool_lem P k s.packet_pool s.received_result t h

pass_on-Holds :
    {A : Type 0} (n : ℕ) (x : Owned) (k : Remote → Outcome A) (o : Outcome (Option Owned))
    → HoldsWith n o
    → ((s : Remote) → Holds (held s) (k s))
    → Holds n (pass_on x k o)
pass_on-Holds n x k (returns left s) h g = at_end_of_scope-Holds (held s) n left (k s) (g s) h
pass_on-Holds n x k (throws e s) h g =
    release_lem (Holds n) (some x) (throws e) s tt (λ s' f. omega arith)
pass_on-Holds n x k terminates h g = tt
pass_on-Holds n x k unfinished h g = tt

handle_result-Keeps : Keeps handle_result
unfolding handle_result
handle_result-Keeps x s =
    release_lem (HoldsWith (held s + 1)) s.received_result (returns none)
      (record s { received_result = some x }) tt (λ s' e. omega arith)

reply_written-Holds :
    (send : Handler) (reply : Owned) (s : Remote) (w : Result Writer)
    → Keeps send
    → Holds (held s + 1) (reply_written send reply s w)
unfolding reply_written
reply_written-Holds send reply s (ok w) keeps =
    let sent : Owned = record reply { object = written reply.object w } in
    pass_on-Holds (held s + 1) sent (returns tt) (send sent s) (keeps sent s) (λ s'. refl)
reply_written-Holds send reply s (error e) keeps =
    release_lem (Holds (held s + 1)) (some reply) (throws e) s tt (λ s' f. omega arith)
reply_written-Holds send reply s fault keeps = tt
reply_written-Holds send reply s timeout keeps = tt

send_reply-Holds :
    (n : ℕ) (send : Handler) (result : TypedValue) (args : List TypedValue) (reply : Owned)
    (s : Remote)
    → Keeps send
    → held s + 1 ≡ n
    → Holds n (send_reply send result args reply s)
unfolding send_reply
send_reply-Holds n send result args reply s keeps e =
    let w = write_result result args (payload_writer reply.object) in
    subst (λ m. Holds m (reply_written send reply s w)) e (reply_written-Holds send reply s w keeps)

handle_call-Keeps : (send : Handler) (local : Local) → Keeps send → Keeps (handle_call send local)
unfolding handle_call
handle_call-Keeps send local keeps x s =
    and_then-HoldsWith (held s) (lift (read_call (payload_reader x.object)) s) _
      (lift-Holds (held s) _ s refl)
      (λ read s1 e1.
        and_then-HoldsWith (held s) (lift (Registry.call read.0.0 read.0.1 local) s1) _
          (lift-Holds (held s) _ s1 e1)
          (λ called s2 e2.
            take_packet_lem (HoldsWith (held s + 1)) _ s2 (λ e. omega arith)
              (λ reply s3 e3.
                and_then-HoldsWith (held s) (send_reply send called.0 called.1 reply s3) _
                  (send_reply-Holds (held s) send called.0 called.1 reply s3 keeps (e3 ∙ e2))
                  (λ u s4 e4. omega arith))))

dispatch-Keeps :
    (send : Handler) (local : Local) (type : ℕ) → Keeps send → Keeps (dispatch send local type)
unfolding dispatch
dispatch-Keeps send local type keeps x s = elim (Bool-cases (type == packet_call)) [
  | inl e ↦ rw e (handle_call-Keeps send local keeps x s)
  | inr e ↦ elim (Bool-cases (type == packet_result)) [
    | inl f ↦ rw (e, f) (handle_result-Keeps x s)
    | inr f ↦ rw (e, f) refl
  ]
]

handle_packet-Keeps : (depth : ℕ) (local : Local) → Keeps (handle_packet depth local)
unfolding handle_packet
handle_packet-Keeps zero local x s = tt
handle_packet-Keeps (suc depth) local x s = elim (Bool-cases (get_size x.object == 0)) [
  | inl e ↦ rw e refl
  | inr e ↦ rw e (
      and_then-HoldsWith (held s) (lift (read_uint8 (payload_reader x.object)) s) _
        (lift-Holds (held s) _ s refl)
        (λ read s1 e1.
          subst (λ n. HoldsWith (n + 1) (dispatch (handle_packet depth local) local read.0 x s1)) e1
            (dispatch-Keeps (handle_packet depth local) local read.0
              (handle_packet-Keeps depth local) x s1)))
]

read_from-Holds :
    (r : Option Owned) (args : List Arg) (s : Remote)
    → Holds (held s + count_of r) (read_from r args s)
unfolding read_from
read_from-Holds none args s = tt
read_from-Holds (some reply) args s =
    at_end_of_scope-Holds (held s) (held s + 1) (some reply) _
      (and_then-Holds (held s) (lift (read_result args (payload_reader reply.object)) s) _
        (lift-Holds (held s) _ s refl) (λ read s1 e. e))
      refl

read_reply-Holds : (args : List Arg) (s : Remote) → Holds (held s) (read_reply args s)
unfolding read_reply
read_reply-Holds args s =
    let s1 : Remote = record s { received_result = none } in
    let same : held s1 + count_of s.received_result ≡ held s = omega arith in
    subst (λ n. Holds n (read_from s.received_result args s1)) same
      (read_from-Holds s.received_result args s1)

call_written-Holds :
    (depth : ℕ) (local : Local) (args : List Arg) (packet : Owned) (s : Remote) (w : Result Writer)
    → Holds (held s + 1) (call_written depth local args packet s w)
unfolding call_written
call_written-Holds depth local args packet s (ok w) =
    let sent : Owned = record packet { object = written packet.object w } in
    pass_on-Holds (held s + 1) sent (read_reply args) (handle_packet depth local sent s)
      (handle_packet-Keeps depth local sent s) (read_reply-Holds args)
call_written-Holds depth local args packet s (error e) =
    release_lem (Holds (held s + 1)) (some packet) (throws e) s tt (λ s' f. omega arith)
call_written-Holds depth local args packet s fault = tt
call_written-Holds depth local args packet s timeout = tt

-- Whether a call returns or throws, and wherever the exception comes from, the endpoint has as
-- many packets as before.
pub remote_call-Holds :
    (depth : ℕ) (local : Local) (function : List ℕ) (args : List Arg) (s : Remote)
    → Holds (held s) (remote_call depth local function args s)
unfolding remote_call send_call
remote_call-Holds depth local function args s =
    take_packet_lem (Holds (held s)) (send_call depth local function args) s (λ e. refl)
      (λ packet s1 e.
        subst (λ n. Holds n (send_call depth local function args packet s1)) e
          (call_written-Holds depth local args packet s1
            (write_call function args (payload_writer packet.object))))
