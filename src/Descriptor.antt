-- ===== src/Descriptor.antt =====
-- Socket of src/l0_system/socket.h and socket.cpp as the owner of a descriptor: opening, closing, moving
-- and accepting. What a system call returned is an argument.
pub mod Ownership
pub mod Calls
use libremo.Prelude.{
  ℕ, Bool, true, false, List, [], ◌∷◌, ◌==◌, if◌then◌else◌, Option, none, some, without,
}
use libremo.Error.{
  ErrorCode, err_socket_open_failed, err_socket_close_failed, err_socket_syscall_failed,
  err_socket_unsupported_family, err_socket_unsupported_protocol,
}
use libremo.SockAddr.{AddrFamily, unspec, ipv4, ipv6, invalid}

-- The descriptors that are open, and `m_sockfd` of every socket, by its address; none is INVALID_SOCKFD.
pub record Files : Type 0 where
  pub opened : List ℕ
  pub holder : ℕ → Option ℕ

-- A member returns, or throws.
abbrev pub Outcome : Type 0
Outcome = Files × Option ErrorCode

-- set_sockfd, or INVALID_SOCKFD
abbrev pub set_sockfd : ℕ → Option ℕ → Files → Files
set_sockfd a o f = record f { holder = λ b. if a == b then o else f.holder b }

pub close_at : Option ℕ → Bool → ℕ → Files → Outcome
close_at none failed a f = (f, none)
close_at (some fd) failed a f = (
  set_sockfd a none (record f { opened = without fd f.opened }),
  if failed then some err_socket_close_failed else none,
)

-- Socket::close, which is also the destructor
unfoldable pub close_socket : Bool → ℕ → Files → Outcome
unfolding close_at
close_socket failed a f = close_at (f.holder a) failed a f

-- What follows unless there was an exception.
pub unless_thrown : Outcome → (Files → Outcome) → Outcome
unless_thrown (f, some e) k = (f, some e)
unless_thrown (f, none) k = k f

-- A new descriptor, if the system call succeeded.
pub hold_new : ErrorCode → Option ℕ → ℕ → Files → Outcome
hold_new e none a f = (f, some e)
hold_new e (some fd) a f = (set_sockfd a (some fd) (record f { opened = fd ∷ f.opened }), none)

-- SockProto; `unknown` is a value outside of the enumeration.
pub data SockProto : Type 0 where
  udp : SockProto
  tcp : SockProto
  unknown : SockProto

pub unsupported : AddrFamily → SockProto → Option ErrorCode
unsupported invalid proto = some err_socket_unsupported_family
unsupported unspec unknown = some err_socket_unsupported_protocol
unsupported ipv4 unknown = some err_socket_unsupported_protocol
unsupported ipv6 unknown = some err_socket_unsupported_protocol
unsupported unspec udp = none
unsupported unspec tcp = none
unsupported ipv4 udp = none
unsupported ipv4 tcp = none
unsupported ipv6 udp = none
unsupported ipv6 tcp = none

pub family_or : AddrFamily → AddrFamily → AddrFamily
family_or localhost unspec = localhost
family_or localhost ipv4 = ipv4
family_or localhost ipv6 = ipv6
family_or localhost invalid = invalid

-- Socket::open, with the family of `localhost`
unfoldable pub open_socket :
    AddrFamily → AddrFamily → SockProto → Bool → Option ℕ → ℕ → Files → Outcome
unfolding unless_thrown close_socket hold_new unsupported family_or
open_socket localhost family proto failed sockfd a f =
    unless_thrown (f, unsupported (family_or localhost family) proto)
      (λ f1. unless_thrown (close_socket failed a f1) (hold_new err_socket_open_failed sockfd a))

-- `socket` is returned, or destroyed by what the entry of the log throws, for which the address of the
-- peer is asked and printed. A close() that fails then ends the program.
pub accept_logged : Option ErrorCode → ℕ → Files → Outcome
unfolding close_socket
accept_logged none a f = (f, none)
accept_logged (some e) a f = ((close_socket false a f).0, some e)

-- Socket::accept, for the socket at `a` that is created
unfoldable pub accept_socket : Option ℕ → Option ErrorCode → ℕ → Files → Outcome
unfolding hold_new unless_thrown accept_logged
accept_socket sockfd logged a f =
    unless_thrown (hold_new err_socket_syscall_failed sockfd a f) (accept_logged logged a)

-- Socket(Socket&&)
abbrev pub move_socket : ℕ → ℕ → Files → Files
move_socket a other f = set_sockfd other none (set_sockfd a (f.holder other) f)

-- operator=(Socket&&)
unfoldable pub assign_socket : Bool → ℕ → ℕ → Files → Outcome
unfolding close_socket unless_thrown
assign_socket failed a other f =
    unless_thrown (close_socket failed a f) (λ f1. (move_socket a other f1, none))
