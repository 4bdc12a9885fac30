-- ===== src/Transport.antt =====
-- src/l1_transport/transport.h, transport.cpp, tcp/tcp-transport.h and tcp-transport.cpp: the channels of
-- a transport, and the thread that listens on them.
pub mod Setup
pub mod Shutdown
pub mod Commands
use libremo.Prelude.{
  ℕ, Bool, true, false, not, List, [], ◌∷◌, ◌++◌, ◌==◌, if◌then◌else◌, Option, none, some, has,
  without, length,
}
use libremo.Error.{
  Result, ok, error, fault, timeout, ◌>>=◌, remo_assert, throw_if, err_socket_syscall_failed,
  err_socket_send_failed, err_socket_recv_incomplete,
}
use libremo.Socket.{IoResult, success, would_block, peer_shutdown, SendRet, send}
use libremo.Channel.{
  Channel, new_channel, opened, closing, enter_state, handle_closed, destroy_channel,
}

-- Channels are named by their addresses, and so are the sockets in them. `sockets` is the set that the thread polls,
-- and `commands` the datagrams to the thread that it has not received, in order: a channel, or none for
-- the end.
pub record Transport : Type 0 where
  pub channels : List ℕ
  pub channel : ℕ → Channel
  pub accept_handler : Bool
  pub accepted : List ℕ
  pub ctrl_in : ℕ
  pub serversock : ℕ
  pub sockets : List ℕ
  pub commands : List (Option ℕ)
  pub termination_requested : Bool

-- TcpTransport::TcpTransport and TcpThread::TcpThread
abbrev pub new_transport : ℕ → ℕ → (ℕ → Channel) → Transport
new_transport ctrl_in serversock channel = record {
  channels = [];
  channel = channel;
  accept_handler = false;
  accepted = [];
  ctrl_in = ctrl_in;
  serversock = serversock;
  sockets = ctrl_in ∷ serversock ∷ [];
  commands = [];
  termination_requested = false;
}

abbrev pub set_channel : ℕ → (Channel → Channel) → Transport → Transport
set_channel c f t = record t { channel = λ d. if c == d then f (t.channel d) else t.channel d }

-- Transport::on_accept
abbrev pub on_accept : Transport → Transport
on_accept t = record t { accept_handler = true }

-- Transport::add_channel
unfoldable pub add_channel : ℕ → Transport → Result Transport
add_channel c t = do
  _ ← remo_assert (not (has c t.channels))
  ok (record t { channels = c ∷ t.channels })

-- Transport::remove_channel, with the destructor of the channel
unfoldable pub remove_channel : ℕ → Transport → Result Transport
remove_channel c t = do
  _ ← remo_assert (has c t.channels)
  _ ← destroy_channel (t.channel c)
  ok (record t { channels = without c t.channels })

unfoldable pub destroy_all : List ℕ → Transport → Result (Unit {0})
destroy_all [] t = ok tt
destroy_all (c ∷ cs) t = do _ ← destroy_channel (t.channel c); destroy_all cs t

-- Transport::remove_channels
unfoldable pub remove_channels : Transport → Result Transport
unfolding destroy_all
remove_channels t = do _ ← destroy_all t.channels t; ok (record t { channels = [] })

-- Transport::accept
unfoldable pub accept : ℕ → Transport → Result Transport
unfolding add_channel
accept c t = do
  t' ← add_channel c t
  ok (if t'.accept_handler then record t' { accepted = t'.accepted ++ c ∷ [] } else t')

-- The loop over the channels, with TcpChannel::close; `fails` says for which of them shutdown() fails.
-- What an exception leaves behind is not tracked.
unfoldable pub close_all : (ℕ → Bool) → List ℕ → Transport → Result Transport
close_all fails [] t = ok t
close_all fails (c ∷ cs) t = do
  _ ← throw_if (fails c) err_socket_syscall_failed
  close_all fails cs (set_channel c (enter_state closing) t)

-- Transport::close_channels
unfoldable pub close_channels : (ℕ → Bool) → Transport → Result Transport
unfolding close_all
close_channels fails t = close_all fails t.channels t

enqueued : IoResult → Option ℕ → Transport → Transport
enqueued success c t = record t { commands = t.commands ++ c ∷ [] }
enqueued would_block c t = t
enqueued peer_shutdown c t = t

-- TcpThread::add_channel, with what send() makes of the eight bytes of the address. What a would-be
-- blocking send() did not take is lost.
unfoldable pub send_command : SendRet → Option ℕ → Transport → Result Transport
unfolding enqueued
send_command ret c t = do (r, n) ← send 8 false ret; ok (enqueued r c t)

-- TcpThread::do_add_channel
abbrev pub do_add_channel : ℕ → Transport → Transport
do_add_channel c t = record t { sockets = t.sockets ++ c ∷ [] }

-- SocketSet::remove, as TcpThread calls it
unfoldable pub drop_socket : ℕ → Transport → Result Transport
drop_socket c t = do
  _ ← remo_assert (has c t.sockets)
  ok (record t { sockets = without c t.sockets })

-- Channel::closed, with TcpTransport::closed and TcpThread::remove_channel
unfoldable pub channel_closed : ℕ → Transport → Result Transport
unfolding drop_socket
channel_closed c t = drop_socket c (set_channel c handle_closed t)

-- TcpTransport::connect, for the channel that is created, where the connection succeeds
unfoldable pub connect_channel : SendRet → ℕ → Transport → Result Transport
unfolding add_channel send_command
connect_channel ret c t = do
  t' ← add_channel c (set_channel c (λ d. enter_state opened new_channel) t)
  send_command ret (some c) t'

-- TcpThread::handle_incoming_connection, for the channel that is created
unfoldable pub handle_incoming_connection : ℕ → Transport → Result Transport
unfolding accept
handle_incoming_connection c t =
    accept c (do_add_channel c (set_channel c (λ d. enter_state opened new_channel) t))

-- TcpThread::handle_cmd, with the address that was received; it is null where there is none.
pub obey : Option ℕ → Transport → Transport
obey (some c) t = do_add_channel c t
obey none t = record t { termination_requested = true }

-- What recv() makes of the control socket: the first datagram, nothing, a failure, or a datagram of
-- another size. The system may also lose the first datagram before.
pub data Arrival : Type 0 where
  first : Arrival
  nothing : Arrival
  failure : Arrival
  another_size : Arrival
  after_loss : Arrival → Arrival

abbrev pub without_first : {A : Type 0} → List A → List A
without_first [] = []
without_first (x ∷ xs) = xs

handle_first : List (Option ℕ) → Transport → Result Transport
unfolding obey
handle_first [] t = ok (obey none t)
handle_first (c ∷ cs) t = ok (obey c (record t { commands = cs }))

unfoldable pub handle_cmd : Arrival → Transport → Result Transport
unfolding handle_first
handle_cmd first t = handle_first t.commands t
handle_cmd nothing t = ok (obey none t)
handle_cmd failure t = error err_socket_send_failed
handle_cmd another_size t = error err_socket_recv_incomplete
handle_cmd (after_loss a) t = handle_cmd a (record t { commands = without_first t.commands })

-- TcpThread::shutdown
unfoldable pub shutdown_thread : SendRet → Transport → Result Transport
unfolding send_command
shutdown_thread ret t = send_command ret none t

-- The loop of `do_shutdown`, in which these channels turn out to be disconnected, one after the other.
unfoldable pub disconnect : List ℕ → Transport → Result Transport
unfolding channel_closed
disconnect [] t = if length t.sockets == 0 then ok t else timeout
disconnect (c ∷ cs) t =
    let rest = (do t' ← channel_closed c t; disconnect cs t') in
    if length t.sockets == 0 then ok t else rest

-- TcpThread::do_shutdown
unfoldable pub do_shutdown : (ℕ → Bool) → List ℕ → Transport → Result Transport
unfolding drop_socket close_channels disconnect
do_shutdown fails disconnected t = do
  t1 ← drop_socket t.ctrl_in t
  t2 ← drop_socket t.serversock t1
  t3 ← close_channels fails t2
  disconnect disconnected t3
