-- ===== src/Examples/Transports.antt =====
-- Transports at concrete inputs.
use libremo.Prelude.{
  ℕ, Bool, false, ◌==◌, arith, ◌≡◌, refl, true, [], ◌∷◌, ◌++◌, if◌then◌else◌, has,
}
use libremo.Error.{ok, error, err_socket_syscall_failed, Yields}
use libremo.Channel.{new_channel, opened, closed, closing, enter_state, handle_closed}
use libremo.SocketSetup.{Addr}
use libremo.Transport.Setup.{Luck, good_luck, TcpSockets, setup_thread, IsReady, setup_thread_lem}
use libremo.Socket.{sent}
use libremo.Transport.{Transport, new_transport, do_shutdown, first, nothing}
use libremo.Transport.Shutdown.{state_of, any_fails, none_left, next, do_shutdown_lem}
use libremo.Transport.Commands.{ask, all_sent, obey_until_end, ask-obey}

-- Two channels that the thread listens on, and one, 7, that its peer has closed before.
abbrev three_channels : Transport
three_channels = record (new_transport 0 1 (λ c. handle_closed (enter_state opened new_channel))) {
  channels = 7 ∷ 5 ∷ 4 ∷ [];
  sockets = 0 ∷ 1 ∷ 4 ∷ 5 ∷ [];
}

-- The connection of channel 9 was reset.
abbrev reset_by_peer : ℕ → Bool
reset_by_peer c = c == 9

do_shutdown_lem_example :
    (t : Transport) × (do_shutdown reset_by_peer (5 ∷ 4 ∷ []) three_channels ≡ (
      if any_fails reset_by_peer (7 ∷ 5 ∷ 4 ∷ []) then error err_socket_syscall_failed else ok t))
    × (t.sockets ≡ [])
    × ((d : ℕ)
        → has d (7 ∷ 5 ∷ 4 ∷ []) ≡ true
        → state_of d t ≡ (if has d (5 ∷ 4 ∷ []) then closed else closing))
do_shutdown_lem_example =
    do_shutdown_lem reset_by_peer (5 ∷ 4 ∷ []) (4 ∷ 5 ∷ []) three_channels refl
      (next 5 (4 ∷ []) (4 ∷ 5 ∷ []) refl (next 4 [] (4 ∷ []) refl none_left)) (refl, (refl, tt))

none_of_them : any_fails reset_by_peer (7 ∷ 5 ∷ 4 ∷ []) ≡ false
none_of_them = refl

abbrev listening : Transport
listening = new_transport 0 1 (λ c. new_channel)

ask-obey_example :
    (asked : Transport) × (ask (all_sent (4 ∷ 5 ∷ [])) (sent 8) listening ≡ ok asked)
    × ((t1 : Transport) × (obey_until_end (first ∷ first ∷ first ∷ []) asked ≡ ok t1)
        × (t1.sockets ≡ 0 ∷ 1 ∷ 4 ∷ 5 ∷ [])
        × (t1.termination_requested ≡ true))
    × ((t2 : Transport) × (obey_until_end (first ∷ nothing ∷ []) asked ≡ ok t2)
        × (t2.sockets ≡ 0 ∷ 1 ∷ 4 ∷ [])
        × (t2.termination_requested ≡ true))
ask-obey_example = ask-obey (4 ∷ 5 ∷ []) 1 [] listening refl refl (omega arith)

-- The server's address, its completion by the system, and the local one.
abbrev any_addr : Addr
any_addr = 0 ∷ 0 ∷ []

abbrev local_addr : Addr
local_addr = 127 ∷ 0 ∷ []

abbrev server_addr : Addr
server_addr = 0 ∷ 1986 ∷ []

abbrev with_zone : Addr → Addr
with_zone addr = addr ++ (7 ∷ [])

-- The system does not let the address be used again.
abbrev address_in_use : Luck
address_in_use = record good_luck { bind_fails = true }

setup_thread_lem_example :
    Yields (IsReady any_addr local_addr server_addr with_zone 128) (
      setup_thread any_addr local_addr server_addr with_zone 128 address_in_use good_luck good_luck)
    × ((t : TcpSockets) × (setup_thread any_addr local_addr server_addr with_zone 128 good_luck
            good_luck good_luck
          ≡ ok t))
setup_thread_lem_example =
    setup_thread_lem any_addr local_addr server_addr with_zone 128 address_in_use good_luck
      good_luck
