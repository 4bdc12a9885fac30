-- ===== src/TcpChannel/Shutdown.antt =====
-- The end of the stream.
use libremo.Prelude.{
  ℕ, ◌+◌, ◌-◌, ◌<◌, ◌≡◌, refl, sym, subst, ap, ◌∙◌, Bool, true, false, ◌||◌, List, [], ◌∷◌, ◌++◌,
  append_assoc, length, none, some, arith, lt→ltb, le→leb,
}
use libremo.Error.{ok}
use libremo.Packet.{max_packet_size}
use libremo.Channel.{
  State, opening, opened, closing, closed, closed_by_peer, same_state, Event, state_changed,
  transport_closed, Channel, is_closed, handle_closed, enter_state,
}
use libremo.Socket.{RecvRet, got, recv}
use libremo.Rpc.Remote.Kept.{count_of}
use libremo.Rpc.Remote.{Owned}
use libremo.Rpc.Remote.Loopback.{emptied, give_back-eq, emptied-IsFresh}
use libremo.TcpChannel.{
  TcpChannel, prepare_rx_packet, receive_chunk, handle_shutdown, handle_received,
}
use libremo.TcpChannel.Rx.{IsRx, Waiting, AllFresh, IsRx-get_size, rx_packet_of_lem, rx_fits_lem}

-- The state in which the end of the stream leaves a channel that is not closed.
abbrev pub end_state : State → State
end_state closing = closed
end_state closed = closed
end_state _ = closed_by_peer

-- What its observer is told, if it has one, and then the transport.
abbrev pub end_events : Bool → State → List Event
end_events true s = state_changed (end_state s) ∷ transport_closed ∷ []
end_events false s = transport_closed ∷ []

Ends : Channel → Channel → Type 0
Ends c c' =
    (c'.state ≡ end_state c.state) × (c'.events ≡ c.events ++ end_events c.state_handler c.state)

handle_closed-Ends :
    (state : State) (receive_handler state_handler : Bool) (events : List Event)
    → same_state state closed ≡ false
    → same_state state closed_by_peer ≡ false
    → Ends
        (record {
          state = state;
          receive_handler = receive_handler;
          state_handler = state_handler;
          events = events;
        })
        (handle_closed (record {
          state = state;
          receive_handler = receive_handler;
          state_handler = state_handler;
          events = events;
        }))
unfolding handle_closed enter_state same_state Ends
handle_closed-Ends opening r false events a b = (refl, refl)
handle_closed-Ends opening r true events a b =
    (refl, append_assoc events (state_changed closed_by_peer ∷ []) (transport_closed ∷ []))
handle_closed-Ends opened r false events a b = (refl, refl)
handle_closed-Ends opened r true events a b =
    (refl, append_assoc events (state_changed closed_by_peer ∷ []) (transport_closed ∷ []))
handle_closed-Ends closing r false events a b = (refl, refl)
handle_closed-Ends closing r true events a b =
    (refl, append_assoc events (state_changed closed ∷ []) (transport_closed ∷ []))
handle_closed-Ends closed r h events a b = absurd (ground arith)
handle_closed-Ends closed_by_peer r h events a b = absurd (ground arith)

neither : (a b : Bool) → (a || b) ≡ false → (a ≡ false) × (b ≡ false)
neither a b h = ground arith

closed_lem : (c : Channel) → is_closed c ≡ false → Ends c (handle_closed c)
unfolding is_closed
closed_lem c h =
    let (a, b) = neither (same_state c.state closed) (same_state c.state closed_by_peer) h in
    handle_closed-Ends c.state c.receive_handler c.state_handler c.events a b

handle_shutdown_lem :
    (bytes : List ℕ) (x : Owned) (c : TcpChannel)
    → IsRx bytes x
    → c.rx_packet ≡ some x
    → AllFresh c.pool
    → (c' : TcpChannel) × (handle_shutdown x c ≡ ok c')
      × Waiting c'.rx_packet []
      × (c'.base ≡ handle_closed c.base)
      × AllFresh c'.pool
      × (length c'.pool + count_of c'.rx_packet ≡ length c.pool + 1)
unfolding handle_shutdown
handle_shutdown_lem [] x c r e f = (
  record c { base = handle_closed c.base },
  rw (IsRx-get_size [] x r) refl,
  subst (λ o. Waiting o []) (sym e) r,
  refl,
  f,
  ap (λ o. length c.pool + count_of o) e,
)
handle_shutdown_lem (b ∷ bytes) x c r e f = (
  record c { base = handle_closed c.base; rx_packet = none; pool = emptied x ∷ c.pool },
  rw
      (
        IsRx-get_size (b ∷ bytes) x r,
        lt→ltb 0 (length (b ∷ bytes)) (omega arith),
        give_back-eq x c.pool r.pooled,
      )
      refl,
  refl,
  refl,
  (emptied-IsFresh x r.readable, f),
  omega arith,
)

-- When the peer has shut down, a channel that is not closed goes to the state closed if it was
-- closing, and to closed_by_peer otherwise; it tells this to the observer of its state, if it
-- has one, and then that it is closed to the transport. The bytes of a packet that is not
-- complete are discarded, and no packet is lost, provided that there is a packet to receive
-- into.
pub receive_chunk-shutdown :
    (bytes : List ℕ) (receiving : ℕ → RecvRet) (c : TcpChannel)
    → is_closed c.base ≡ false
    → Waiting c.rx_packet bytes
    → AllFresh c.pool
    → 0 < length c.pool + count_of c.rx_packet
    → receiving (max_packet_size - length bytes) ≡ got []
    → (c' : TcpChannel) × (receive_chunk receiving c ≡ ok c')
      × Waiting c'.rx_packet []
      × (c'.base.state ≡ end_state c.base.state)
      × (c'.base.events ≡ c.base.events ++ end_events c.base.state_handler c.base.state)
      × AllFresh c'.pool
      × (length c'.pool + count_of c'.rx_packet ≡ length c.pool + count_of c.rx_packet)
unfolding receive_chunk prepare_rx_packet handle_received recv Ends
receive_chunk-shutdown bytes receiving c open_yet waiting f h e =
    let (x, rest, e1, r, fs, kept) = rx_packet_of_lem c.rx_packet c.pool bytes waiting f h in
    let c1 : TcpChannel = record c { rx_packet = some x; pool = rest } in
    let (c', run, waits, base, fs', kept') = handle_shutdown_lem bytes x c1 r refl fs in
    let (state, told) = closed_lem c.base open_yet in
    (
      c',
      rw
          (
            open_yet,
            rx_fits_lem c.rx_packet bytes waiting,
            e1,
            IsRx-get_size bytes x r,
            e,
            le→leb 0 (max_packet_size - length bytes) (omega arith),
            run,
            rx_fits_lem c'.rx_packet [] waits,
          )
          refl,
      waits,
      ap (λ b. b.state) base ∙ state,
      ap (λ b. b.events) base ∙ told,
      fs',
      omega arith,
    )
