-- ===== src/Rpc/Remote.antt =====
-- src/l3_rpc/remote_endpoint.h, remote_endpoint.cpp and remote_endpoint.tpp.h: calls through the
-- loopback of a remote endpoint, with every exception on the way and the packets that it gives back.
pub mod Loopback
pub mod Kept
use libremo.Prelude.{ℕ, zero, suc, false, List, [], ◌∷◌, ◌==◌, if◌then◌else◌, Option, none, some}
use libremo.Error.{Result, ok, error, fault, timeout, ErrorCode, ◌>>=◌, err_out_of_packets}
use libremo.Types.{TypedValue}
use libremo.Packet.{Packet, new_packet, reset_packet, get_size, packet_call, packet_result}
use libremo.Writer.{Writer, Arg, write_call, write_result}
use libremo.Reader.{read_uint8, read_call, read_result}
use libremo.Codec.{payload_writer, payload_reader, written}
use libremo.Rpc.Registry.{Local}
use libremo.Rpc.Pool.{Recyclable, Pool, add, take_first, recycle, destroy_pool}
use libremo.Rpc.Registry

-- A packet_ptr that is not null.
abbrev pub Owned : Type 0
Owned = Recyclable Packet

pub record Remote : Type 0 where
  pub packet_pool : Pool Packet
  pub received_result : Option Owned

-- How a member function ends: with a value, with an exception, with the end of the program (a fault,
-- or an exception out of a destructor), or without fuel.
pub data Outcome (A : Type 0) : Type 0 where
  returns : A → Remote → Outcome A
  throws : ErrorCode → Remote → Outcome A
  terminates : Outcome A
  unfinished : Outcome A

abbrev pub and_then : {A B : Type 0} → Outcome A → (A → Remote → Outcome B) → Outcome B
and_then (returns a s) k = k a s
and_then (throws e s) k = throws e s
and_then terminates k = terminates
and_then unfinished k = unfinished

-- A step that leaves the endpoint alone.
abbrev pub lift : {A : Type 0} → Result A → Remote → Outcome A
lift (ok a) s = returns a s
lift (error e) s = throws e s
lift fault s = terminates
lift timeout s = unfinished

-- What `Packet::recycle` leaves of the pool.
unfoldable pub give_back : Owned → Pool Packet → Result (Pool Packet)
unfolding reset_packet recycle
give_back x pool = do packet ← reset_packet x.object; recycle (record x { object = packet }) pool

abbrev after_release :
    {A : Type 0} → (Remote → Outcome A) → Result (Pool Packet) → Remote → Outcome A
after_release k (ok pool) s = k (record s { packet_pool = pool })
after_release k (error e) s = terminates
after_release k fault s = terminates
after_release k timeout s = unfinished

-- The destructor of a packet_ptr
unfoldable pub release : {A : Type 0} → Option Owned → (Remote → Outcome A) → Remote → Outcome A
unfolding give_back
release none k s = k s
release (some x) k s = after_release k (give_back x s.packet_pool) s

-- The end of the scope of a packet_ptr, by whichever way it is reached.
abbrev pub at_end_of_scope : {A : Type 0} → Option Owned → Outcome A → Outcome A
at_end_of_scope x (returns a s) = release x (returns a) s
at_end_of_scope x (throws e s) = release x (throws e) s
at_end_of_scope x terminates = terminates
at_end_of_scope x unfinished = unfinished

-- PACKET_POOL_SIZE
abbrev pub packet_pool_size : ℕ
packet_pool_size = 16

unfoldable pub alloc_some : ℕ → Pool Packet → Result (Pool Packet)
unfolding new_packet add
alloc_some zero pool = ok pool
alloc_some (suc n) pool = do
  packet ← new_packet
  alloc_some n (add (record { object = packet; pooled = false }) pool)

-- RemoteEndpoint(a_local)
unfoldable pub new_remote : Result Remote
unfolding alloc_some
new_remote = do
  pool ← alloc_some packet_pool_size []
  ok (record { packet_pool = pool; received_result = none })

unfoldable pub after_result : Option Owned → Pool Packet → Result (Pool Packet)
unfolding give_back
after_result none pool = ok pool
after_result (some x) pool = give_back x pool

-- RemoteEndpoint::~RemoteEndpoint: the members go, the last one first.
unfoldable pub destroy_remote : Remote → Result (Unit {0})
unfolding after_result destroy_pool
destroy_remote s = do pool ← after_result s.received_result s.packet_pool; destroy_pool pool

taken : Option Owned × Pool Packet → Remote → Outcome Owned
taken (none, pool) s = throws err_out_of_packets s
taken (some x, pool) s = returns x (record s { packet_pool = pool })

unfoldable pub take_packet : Remote → Outcome Owned
unfolding taken take_first
take_packet s = taken (take_first s.packet_pool) s

-- What a function that takes `packet_ptr&` leaves of the pointer.
abbrev pub Handler : Type 0
Handler = Owned → Remote → Outcome (Option Owned)

-- The move assignment releases the packet that was there.
unfoldable pub handle_result : Handler
unfolding release
handle_result x s = release s.received_result (returns none) (record s { received_result = some x })

-- A packet_ptr that is passed by reference, and lives to the end of the scope: `k` is the rest of the
-- scope. A handler that throws has left it alone.
abbrev pub pass_on :
    {A : Type 0} → Owned → (Remote → Outcome A) → Outcome (Option Owned) → Outcome A
pass_on x k (returns left s) = at_end_of_scope left (k s)
pass_on x k (throws e s) = release (some x) (throws e) s
pass_on x k terminates = terminates
pass_on x k unfinished = unfinished

-- `reply_writer.write_result(result, reader.get_args())` and what follows
-- What a writer that threw left in the array is not tracked.
reply_written : Handler → Owned → Remote → Result Writer → Outcome (Unit {0})
unfolding release
reply_written send reply s (ok w) =
    let sent : Owned = record reply { object = written reply.object w } in
    pass_on sent (returns tt) (send sent s)
reply_written send reply s (error e) = release (some reply) (throws e) s
reply_written send reply s fault = terminates
reply_written send reply s timeout = unfinished

send_reply : Handler → TypedValue → List TypedValue → Owned → Remote → Outcome (Unit {0})
unfolding reply_written
send_reply send result args reply s =
    reply_written send reply s (write_result result args (payload_writer reply.object))

-- `send` is `send_packet`; the packet stays with the caller.
unfoldable pub handle_call : Handler → Local → Handler
unfolding take_packet send_reply
handle_call send local x s = and_then (lift (read_call (payload_reader x.object)) s) (λ read s1.
    and_then (lift (Registry.call read.0.0 read.0.1 local) s1) (λ called s2.
      and_then (take_packet s2) (λ reply s3.
        and_then (send_reply send called.0 called.1 reply s3) (λ u s4. returns (some x) s4))))

dispatch : Handler → Local → ℕ → Handler
unfolding handle_call handle_result
dispatch send local type x s =
    if type == packet_call
    then handle_call send local x s
    else if type == packet_result
    then handle_result x s
    else returns (some x) s

-- send_packet, receive_packet and handle_packet: the loopback hands each packet that is sent to
-- `handle_packet`, `depth` times at most.
unfoldable pub handle_packet : ℕ → Local → Handler
unfolding dispatch get_size
handle_packet zero local x s = unfinished
handle_packet (suc depth) local x s =
    if get_size x.object == 0
    then returns (some x) s
    else and_then (lift (read_uint8 (payload_reader x.object)) s)
        (λ read s1. dispatch (handle_packet depth local) local read.0 x s1)

-- `std::move(m_received_result)` and the reading of the reply; without one, a null pointer is used.
read_from : Option Owned → List Arg → Remote → Outcome (TypedValue × List Arg)
unfolding release
read_from none args s = terminates
read_from (some reply) args s = at_end_of_scope (some reply) (
    and_then (lift (read_result args (payload_reader reply.object)) s)
      (λ read s1. returns read.0 s1))

unfoldable pub read_reply : List Arg → Remote → Outcome (TypedValue × List Arg)
unfolding read_from
read_reply args s = read_from s.received_result args (record s { received_result = none })

call_written :
    ℕ → Local → List Arg → Owned → Remote → Result Writer → Outcome (TypedValue × List Arg)
unfolding handle_packet read_reply
call_written depth local args packet s (ok w) =
    let sent : Owned = record packet { object = written packet.object w } in
    pass_on sent (read_reply args) (handle_packet depth local sent s)
call_written depth local args packet s (error e) = release (some packet) (throws e) s
call_written depth local args packet s fault = terminates
call_written depth local args packet s timeout = unfinished

send_call : ℕ → Local → List ℕ → List Arg → Owned → Remote → Outcome (TypedValue × List Arg)
unfolding call_written
send_call depth local function args packet s =
    call_written depth local args packet s (write_call function args (payload_writer packet.object))

-- RemoteEndpoint::call: the result, and the arguments with what they point to.
unfoldable pub remote_call :
    ℕ → Local → List ℕ → List Arg → Remote → Outcome (TypedValue × List Arg)
unfolding take_packet send_call
remote_call depth local function args s =
    and_then (take_packet s) (λ packet s1. send_call depth local function args packet s1)
