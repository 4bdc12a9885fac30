-- ===== src/Channel/States.antt =====
-- What the observer of a channel is told of its states.
use libremo.Prelude.{
  ◌≡◌, refl, sym, subst, arith, true, false, List, [], ◌∷◌, ◌++◌, Bool-cases, inl, inr,
  if◌then◌else◌,
}
use libremo.Packet.{Packet}
use libremo.Channel.{
  State, opening, opened, closing, closed, closed_by_peer, same_state, Event, state_changed,
  received, transport_closed, Channel, tell, enter_state, handle_closed, notify_receive, on_receive,
}

-- What happens to a channel: its socket is connected, its owner closes it, its stream has ended, it has
-- a packet, or a handler of packets is registered.
pub data Call : Type 0 where
  connects : Call
  closes : Call
  ends : Call
  receives : Packet → Call
  observes : Call

unfoldable pub do_call : Call → Channel → Channel
do_call connects c = enter_state opened c
do_call closes c = enter_state closing c
do_call ends c = handle_closed c
do_call (receives p) c = notify_receive p c
do_call observes c = on_receive c

unfoldable pub do_calls : List Call → Channel → Channel
do_calls [] c = c
do_calls (k ∷ ks) c = do_calls ks (do_call k c)

-- The transitions: a channel is closed from `closing` only, and closed by the peer from the others.
pub data Turns : State → State → Type 0 where
  to_opened : (s : State) → same_state opened s ≡ false → Turns s opened
  to_closing : (s : State) → same_state closing s ≡ false → Turns s closing
  to_closed : Turns closing closed
  to_closed_by_peer :
      (s : State)
      → same_state s closing ≡ false
      → same_state closed_by_peer s ≡ false
      → Turns s closed_by_peer

-- The states that an observer was told, from the first on, each reached from the one before.
pub data Told : State → List Event → State → Type 0 where
  start : (s : State) → Told s [] s
  change :
      (s t u : State) (events : List Event)
      → Told s events t
      → Turns t u
      → Told s (events ++ state_changed u ∷ []) u
  packet :
      (s t : State) (events : List Event) (p : Packet)
      → Told s events t
      → Told s (events ++ received p ∷ []) t
  transport :
      (s t : State) (events : List Event)
      → Told s events t
      → Told s (events ++ transport_closed ∷ []) t

-- The last state that was told is the state that the channel is in.
pub record IsTold (s : State) (c : Channel) : Type 0 where
  pub observed : c.state_handler ≡ true
  pub told : Told s c.events c.state

enter_state-IsTold :
    (s u : State) (c : Channel)
    → IsTold s c
    → (same_state u c.state ≡ false → Turns c.state u)
    → IsTold s (enter_state u c)
unfolding enter_state
enter_state-IsTold s u c v turns = elim (Bool-cases (same_state u c.state)) [
  | inl e ↦ subst (IsTold s) (sym (same e)) v
  | inr e ↦
      subst (IsTold s) (sym (other e))
        (record { observed = v.observed; told = change s c.state u c.events v.told (turns e) })
]
  where
    same : same_state u c.state ≡ true → enter_state u c ≡ c
    same e = rw e refl

    other :
        same_state u c.state ≡ false
        → enter_state u c ≡ record c { state = u; events = c.events ++ state_changed u ∷ [] }
    other e = rw (e, v.observed) refl

closed_turn : (s : State) → same_state s closing ≡ true → Turns s closed
unfolding same_state
closed_turn closing e = to_closed
closed_turn opening e = absurd (ground arith)
closed_turn opened e = absurd (ground arith)
closed_turn closed e = absurd (ground arith)
closed_turn closed_by_peer e = absurd (ground arith)

end_state-IsTold :
    (s : State) (c : Channel)
    → IsTold s c
    → IsTold s (enter_state (if same_state c.state closing then closed else closed_by_peer) c)
end_state-IsTold s c v = elim (Bool-cases (same_state c.state closing)) [
  | inl e ↦
      subst (λ b. IsTold s (enter_state (if b then closed else closed_by_peer) c)) (sym e)
        (enter_state-IsTold s closed c v (λ f. closed_turn c.state e))
  | inr e ↦
      subst (λ b. IsTold s (enter_state (if b then closed else closed_by_peer) c)) (sym e)
        (enter_state-IsTold s closed_by_peer c v (to_closed_by_peer c.state e))
]

handle_closed-IsTold : (s : State) (c : Channel) → IsTold s c → IsTold s (handle_closed c)
unfolding handle_closed
handle_closed-IsTold s c v =
    let v' = end_state-IsTold s c v in
    record { observed = v'.observed; told = transport s _ _ v'.told }

notify_receive-IsTold :
    (s : State) (p : Packet) (c : Channel) → IsTold s c → IsTold s (notify_receive p c)
unfolding notify_receive
notify_receive-IsTold s p c v = elim (Bool-cases c.receive_handler) [
  | inl e ↦
      subst (λ b. IsTold s (tell b (received p) c)) (sym e)
        (record { observed = v.observed; told = packet s c.state c.events p v.told })
  | inr e ↦ subst (λ b. IsTold s (tell b (received p) c)) (sym e) v
]

do_call-IsTold : (s : State) (k : Call) (c : Channel) → IsTold s c → IsTold s (do_call k c)
unfolding do_call
do_call-IsTold s connects c v = enter_state-IsTold s opened c v (to_opened c.state)
do_call-IsTold s closes c v = enter_state-IsTold s closing c v (to_closing c.state)
do_call-IsTold s ends c v = handle_closed-IsTold s c v
do_call-IsTold s (receives p) c v = notify_receive-IsTold s p c v
do_call-IsTold s observes c v = record { observed = v.observed; told = v.told }

-- However a channel with a handler of state changes is called, its handler is told every change
-- and nothing else: each state is reached from the one told before, the last is the state of the
-- channel, and the channel is closed from `closing` only, by the peer from the other states.
pub do_calls-IsTold :
    (ks : List Call) (s : State) (c : Channel) → IsTold s c → IsTold s (do_calls ks c)
unfolding do_calls
do_calls-IsTold [] s c v = v
do_calls-IsTold (k ∷ ks) s c v = do_calls-IsTold ks s (do_call k c) (do_call-IsTold s k c v)
