-- ===== src/SocketSetup.antt =====
-- Socket of src/l0_system/socket.h and socket.cpp: naming, connecting and shutting down a socket, and its
-- options. What a system call returned is an argument, and so is what a log entry threw for
-- which addresses are asked and printed.
use libremo.Prelude.{ℕ, Bool, true, false, not, List, if◌then◌else◌, Option, none, some}
use libremo.Error.{
  Result, ok, error, ErrorCode, err_socket_connect_failed, err_socket_bind_failed,
  err_socket_syscall_failed,
}

-- A socket address, as it lies in `m_addr`.
abbrev pub Addr : Type 0
Addr = List ℕ

-- What the system knows of a socket: whether O_NONBLOCK is among its flags, the option SO_REUSEADDR, its
-- own address, its backlog if it listens, the address of its peer, and the directions that were shut
-- down; and which callbacks are set.
pub record SocketState : Type 0 where
  pub nonblocking : Bool
  pub reuse_addr : Bool
  pub name : Addr
  pub backlog : Option ℕ
  pub peer : Option Addr
  pub receive_ready : Bool
  pub disconnected_handler : Bool

-- A socket that was just opened; its address is the unspecified one of its family.
abbrev pub opened_socket : Addr → SocketState
opened_socket unspecified = record {
  nonblocking = false;
  reuse_addr = false;
  name = unspecified;
  backlog = none;
  peer = none;
  receive_ready = false;
  disconnected_handler = false;
}

-- A member returns or throws, and the system has changed the socket by then.
abbrev pub Done : Type 0
Done = SocketState × Option ErrorCode

-- What follows unless there was an exception.
unfoldable pub continue : Done → (SocketState → Done) → Done
continue (s, some e) k = (s, some e)
continue (s, none) k = k s

-- `if REMO_UNLIKELY(err)` behind a system call, which has an effect where it succeeds
unfoldable pub syscall : ErrorCode → Bool → (SocketState → SocketState) → SocketState → Done
syscall e true effect s = (s, some e)
syscall e false effect s = (effect s, none)

-- What an entry of the log throws.
abbrev pub logs : Option ErrorCode → SocketState → Done
logs thrown s = (s, thrown)

-- Socket::connect
unfoldable pub connect_socket :
    Option ErrorCode → Bool → Option ErrorCode → Addr → SocketState → Done
unfolding continue syscall
connect_socket before failed after addr s = continue (logs before s) (λ s1.
    continue (syscall err_socket_connect_failed failed (λ t. record t { peer = some addr }) s1)
      (logs after))

-- Socket::bind; the system completes the address, for instance by a port.
unfoldable pub bind_socket :
    (Addr → Addr) → Option ErrorCode → Bool → Option ErrorCode → Addr → SocketState → Done
unfolding continue syscall
bind_socket complete before failed after addr s = continue (logs before s) (λ s1.
    continue (syscall err_socket_bind_failed failed (λ t. record t { name = complete addr }) s1)
      (logs after))

-- A negative backlog is none; SOMAXCONN takes its place.
abbrev pub backlog_or : ℕ → Option ℕ → ℕ
backlog_or somaxconn none = somaxconn
backlog_or somaxconn (some n) = n

-- Socket::listen
unfoldable pub listen_socket : ℕ → Option ℕ → Bool → SocketState → Done
unfolding syscall
listen_socket somaxconn backlog failed s =
    syscall err_socket_syscall_failed failed
      (λ t. record t { backlog = some (backlog_or somaxconn backlog) }) s

-- Socket::set_blocking: fcntl() gets the flags, and sets them.
unfoldable pub set_blocking : Bool → Bool → Bool → SocketState → Done
unfolding continue syscall
set_blocking blocking get_failed set_failed s =
    continue (syscall err_socket_syscall_failed get_failed (λ t. t) s)
      (syscall err_socket_syscall_failed set_failed (λ t. record t { nonblocking = not blocking }))

-- Socket::set_reuse_addr
unfoldable pub set_reuse_addr : Bool → Bool → SocketState → Done
unfolding syscall
set_reuse_addr reuse failed s =
    syscall err_socket_syscall_failed failed (λ t. record t { reuse_addr = reuse }) s

-- Socket::get_socket_addr
unfoldable pub get_socket_addr : Bool → SocketState → Result Addr
get_socket_addr failed s = if failed then error err_socket_syscall_failed else ok s.name

abbrev pub peer_or : Option Addr → Result Addr
peer_or none = error err_socket_syscall_failed
peer_or (some addr) = ok addr

-- Socket::get_remote_addr; a socket without a peer makes getpeername() fail.
unfoldable pub get_remote_addr : Bool → SocketState → Result Addr
get_remote_addr failed s = if failed then error err_socket_syscall_failed else peer_or s.peer

-- Socket::on_receive_ready and on_disconnected
abbrev pub on_receive_ready : SocketState → SocketState
on_receive_ready s = record s { receive_ready = true }

abbrev pub on_disconnected : SocketState → SocketState
on_disconnected s = record s { disconnected_handler = true }
