-- ===== src/SocketSet.antt =====
-- src/l0_system/socket.h and socket.cpp: SocketSet, the sockets that a thread waits for.
pub mod Upside
pub mod Order
use libremo.Prelude.{
  ℕ, zero, suc, ◌+◌, Bool, true, false, List, [], ◌∷◌, ◌++◌, ◌==◌, if◌then◌else◌, Option, none,
  some, Option, length, get_elem?,
}
use libremo.Error.{Result, ok, error, fault, ◌>>=◌, remo_assert, throw_if, err_socket_poll_failed}

-- A pollfd: the descriptor, and POLLIN and POLLHUP of `revents`.
pub record PollFd : Type 0 where
  pub fd : ℕ
  pub in_ready : Bool
  pub hung_up : Bool

-- Sockets are named by their addresses.
pub record SocketSet : Type 0 where
  pub sockets : List ℕ
  pub pollfds : List PollFd

abbrev pub new_socket_set : SocketSet
new_socket_set = record { sockets = []; pollfds = [] }

abbrev pub count : SocketSet → ℕ
count s = length s.sockets

-- vector::erase
unfoldable pub erase {ℓ} : {A : Type ℓ} → ℕ → List A → List A
erase i [] = []
erase zero (x ∷ xs) = xs
erase (suc i) (x ∷ xs) = x ∷ erase i xs

abbrev pub new_pollfd : ℕ → PollFd
new_pollfd fd = record { fd = fd; in_ready = false; hung_up = false }

-- SocketSet::add, for a socket with this descriptor
unfoldable pub add_socket : ℕ → ℕ → SocketSet → SocketSet
add_socket fd socket s = record {
  sockets = s.sockets ++ socket ∷ [];
  pollfds = s.pollfds ++ new_pollfd fd ∷ [];
}

-- The first index with this socket, from `i` on.
unfoldable pub index_of : ℕ → ℕ → List ℕ → Option ℕ
index_of socket i [] = none
index_of socket i (t ∷ ts) =
    let rest = index_of socket (i + 1) ts in if t == socket then some i else rest

pub remove_at : Option ℕ → SocketSet → Result SocketSet
unfolding erase
remove_at none s = fault
remove_at (some i) s = ok (record { sockets = erase i s.sockets; pollfds = erase i s.pollfds })

-- SocketSet::remove: without the socket, the postcondition on the size fails.
unfoldable pub remove_socket : ℕ → SocketSet → Result SocketSet
unfolding remove_at index_of
remove_socket socket s = remove_at (index_of socket 0 s.sockets) s

-- What the handler of a socket does to the set.
pub data Reaction : Type 0 where
  stays : Reaction
  leaves : Reaction
  brings : ℕ → Reaction

-- A call of a handler: `receive_ready` or `disconnected`.
pub data Handled : Type 0 where
  receive_ready : ℕ → Handled
  disconnected : ℕ → Handled

-- The sockets outside: their descriptors, and what their handlers do.
pub record Sockets : Type 0 where
  pub get_fd : ℕ → ℕ
  pub handler : Handled → Reaction

pub react : Sockets → Reaction → ℕ → SocketSet → Result SocketSet
unfolding remove_socket add_socket
react o stays socket s = ok s
react o leaves socket s = remove_socket socket s
react o (brings t) socket s = ok (add_socket (o.get_fd t) t s)

-- `num_receive_ready` and the calls of handlers so far.
pub record Polled : Type 0 where
  pub set : SocketSet
  pub num_receive_ready : ℕ
  pub handled : List Handled

unfoldable pub handle : Sockets → Handled → ℕ → ℕ → Polled → Result Polled
unfolding react
handle o h ready socket p = do
  set ← react o (o.handler h) socket p.set
  ok (record {
    set = set;
    num_receive_ready = p.num_receive_ready + ready;
    handled = p.handled ++ h ∷ [];
  })

unfoldable pub dispatch : Sockets → ℕ → PollFd → Polled → Result Polled
unfolding handle
dispatch o socket pfd p =
    if pfd.in_ready
    then handle o (receive_ready socket) 1 socket p
    else (if pfd.hung_up then handle o (disconnected socket) 0 socket p else ok p)

-- A vector is read at an index that it has.
abbrev pub at {ℓ} : {A : Type ℓ} → Option A → Result A
at none = fault
at (some x) = ok x

-- The loop of `poll`, from index `n - 1` down.
unfoldable pub poll_loop : Sockets → ℕ → Polled → Result Polled
unfolding dispatch
poll_loop o zero p = ok p
poll_loop o (suc i) p = do
  pfd ← at (get_elem? p.set.pollfds i)
  socket ← at (get_elem? p.set.sockets i)
  _ ← remo_assert (pfd.fd == o.get_fd socket)
  p' ← dispatch o socket pfd p
  poll_loop o i p'

-- SocketSet::poll; `pollfds` is what poll() left in the array, unless it failed.
unfoldable pub poll : Sockets → Option (List PollFd) → SocketSet → Result Polled
unfolding poll_loop
poll o none s = error err_socket_poll_failed
poll o (some pollfds) s = do
  _ ← remo_assert (length pollfds == length s.sockets)
  poll_loop o (length s.sockets)
      (record { set = record s { pollfds = pollfds }; num_receive_ready = 0; handled = [] })
