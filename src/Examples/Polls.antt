-- ===== src/Examples/Polls.antt =====
-- Sets of sockets and descriptors at concrete inputs.
use libremo.SockAddr.{ipv4, unspec}
use libremo.Descriptor.{Files, tcp, close_socket}
use libremo.Descriptor.Ownership.{IsOwned}
use libremo.Descriptor.Calls.{opens, do_call, do_call-IsOwned}
use libremo.Prelude.{none, arith, ◌≡◌, refl, true, false, List, [], ◌∷◌, some, map}
use libremo.Error.{ok}
use libremo.SocketSet.{
  SocketSet, Sockets, Handled, Reaction, leaves, brings, receive_ready, disconnected, Polled, poll,
  new_pollfd,
}
use libremo.SocketSet.Upside.{upside}
use libremo.SocketSet.Order.{Entry, pollfd_of, all_calls, num_ready, calls_of, poll_lem}

-- The server's socket brings another one, and sockets that are disconnected leave.
abbrev react_to : Handled → Reaction
react_to (receive_ready socket) = brings 9
react_to (disconnected socket) = leaves

abbrev outside : Sockets
outside = record { get_fd = λ socket. socket; handler = react_to }

abbrev three : List Entry
three =
    (3, record { fd = 3; in_ready = false; hung_up = true })
    ∷ (2, record { fd = 2; in_ready = true; hung_up = true })
    ∷ (1, new_pollfd 1)
    ∷ []

abbrev three_sockets : SocketSet
three_sockets = record { sockets = 1 ∷ 2 ∷ 3 ∷ []; pollfds = map new_pollfd (1 ∷ 2 ∷ 3 ∷ []) }

poll_lem_example :
    (p : Polled) × (poll outside (some (upside (map pollfd_of three) [])) three_sockets ≡ ok p)
    × (p.handled ≡ disconnected 3 ∷ receive_ready 2 ∷ [])
    × (p.num_receive_ready ≡ 1)
unfolding all_calls num_ready calls_of
poll_lem_example =
    poll_lem outside three three_sockets ((refl, refl, (refl, refl, (refl, refl, tt)))) refl

abbrev no_file : Files
no_file = record { opened = []; holder = λ a. none }

no_file-IsOwned : IsOwned no_file
no_file-IsOwned = record {
  is_open = λ a fd e. absurd (cc);
  once = λ a b fd e e'. absurd (cc);
  kept = λ fd e. absurd (ground arith);
  distinct = tt;
}

-- The socket 1 is opened, and throws nothing.
do_call-IsOwned_example : IsOwned (do_call (opens ipv4 unspec tcp false (some 5) 1) no_file).0
unfolding close_socket
do_call-IsOwned_example =
    do_call-IsOwned (opens ipv4 unspec tcp false (some 5) 1) no_file (λ fd e. refl) no_file-IsOwned
