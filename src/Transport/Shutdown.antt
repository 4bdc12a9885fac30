-- ===== src/Transport/Shutdown.antt =====
-- What becomes of the channels when the thread of a transport ends.
use libremo.Prelude.{
  ℕ, Bool, suc, ◌≡◌, refl, ap, ◌∙◌, subst, true, false, List, [], ◌∷◌, ◌==◌, if◌then◌else◌,
  Bool-cases, inl, inr, has, without, Distinct, ==_refl, ==_iff, length, arith,
}
use libremo.Error.{ok, error, timeout, ◌>>=◌, remo_assert, err_socket_syscall_failed}
use libremo.Channel.{
  Channel, State, opening, opened, closing, closed, closed_by_peer, same_state, enter_state,
  handle_closed,
}
use libremo.Transport.{
  Transport, set_channel, close_all, close_channels, drop_socket, channel_closed, disconnect,
  do_shutdown,
}

abbrev pub state_of : ℕ → Transport → State
state_of c t = (t.channel c).state

same_as_closing : (s : State) → same_state closing s ≡ true → s ≡ closing
unfolding same_state
same_as_closing closing e = refl
same_as_closing opening e = absurd (ground arith)
same_as_closing opened e = absurd (ground arith)
same_as_closing closed e = absurd (ground arith)
same_as_closing closed_by_peer e = absurd (ground arith)

enter_closing : (c : Channel) → (enter_state closing c).state ≡ closing
unfolding enter_state
enter_closing c = elim (Bool-cases (same_state closing c.state)) [
  | inl e ↦ rw e (same_as_closing c.state e)
  | inr e ↦ elim (Bool-cases c.state_handler) [ inl h ↦ rw (e, h) refl | inr h ↦ rw (e, h) refl ]
]

close_then : (c : Channel) → c.state ≡ closing → (handle_closed c).state ≡ closed
unfolding handle_closed enter_state same_state
close_then c e = elim (Bool-cases c.state_handler) [
  | inl h ↦ rw (e, h) refl
  | inr h ↦ rw (e, h) refl
]

-- The shutdown of the socket of one of these channels fails.
abbrev pub any_fails : (ℕ → Bool) → List ℕ → Bool
any_fails fails [] = false
any_fails fails (c ∷ cs) = if fails c then true else any_fails fails cs

-- What the loop leaves when no shutdown fails.
closing_all : List ℕ → Transport → Transport
closing_all [] t = t
closing_all (c ∷ cs) t = closing_all cs (set_channel c (enter_state closing) t)

close_all-eq :
    (fails : ℕ → Bool) (cs : List ℕ) (t : Transport)
    → close_all fails cs t
      ≡ (if any_fails fails cs then error err_socket_syscall_failed else ok (closing_all cs t))
unfolding close_all closing_all
close_all-eq fails [] t = refl
close_all-eq fails (c ∷ cs) t = elim (Bool-cases (fails c)) [
  | inl e ↦ rw e refl
  | inr e ↦ rw e (close_all-eq fails cs (set_channel c (enter_state closing) t))
]

-- The members of the thread are as they were.
closing_all-sockets : (cs : List ℕ) (t : Transport) → (closing_all cs t).sockets ≡ t.sockets
unfolding closing_all
closing_all-sockets [] t = refl
closing_all-sockets (c ∷ cs) t = closing_all-sockets cs (set_channel c (enter_state closing) t)

closing_all-closing :
    (d : ℕ) (cs : List ℕ) (t : Transport)
    → state_of d t ≡ closing
    → state_of d (closing_all cs t) ≡ closing
unfolding closing_all
closing_all-closing d [] t e = e
closing_all-closing d (c ∷ cs) t e =
    closing_all-closing d cs (set_channel c (enter_state closing) t) (elim (Bool-cases (c == d)) [
      | inl k ↦ rw (state_of, k) (enter_closing (t.channel d))
      | inr k ↦ rw (state_of, k) e
    ])

closing_all_lem :
    (d : ℕ) (cs : List ℕ) (t : Transport)
    → has d cs ≡ true
    → state_of d (closing_all cs t) ≡ closing
unfolding closing_all
closing_all_lem d [] t h = absurd (ground arith)
closing_all_lem d (c ∷ cs) t h = elim (Bool-cases (c == d)) [
  | inl k ↦
      closing_all-closing d cs (set_channel c (enter_state closing) t)
        (rw (state_of, k) (enter_closing (t.channel d)))
  | inr k ↦
      closing_all_lem d cs (set_channel c (enter_state closing) t)
        (subst (λ b. (if b then true else has d cs) ≡ true) k h)
]

-- Each of these sockets is in the set when its turn comes, and in the end there is none.
pub data Clears : List ℕ → List ℕ → Type 0 where
  none_left : Clears [] []
  next :
      (c : ℕ) (cs sockets : List ℕ)
      → has c sockets ≡ true
      → Clears cs (without c sockets)
      → Clears (c ∷ cs) sockets

drop_socket_lem :
    (c : ℕ) (t : Transport)
    → has c t.sockets ≡ true
    → drop_socket c t ≡ ok (record t { sockets = without c t.sockets })
unfolding drop_socket
drop_socket_lem c t h =
    ap (λ b. remo_assert b >>= λ _. ok (record t { sockets = without c t.sockets })) h

drop_socket-first :
    (c : ℕ) (cs : List ℕ) (t : Transport)
    → t.sockets ≡ c ∷ cs
    → drop_socket c t ≡ ok (record t { sockets = cs })
unfolding drop_socket
drop_socket-first c cs t e =
    ap (λ l. remo_assert (has c l) >>= λ _. ok (record t { sockets = without c l })) e
    ∙ rw (==_refl c) refl

-- These channels were disconnected.
abbrev Ended : List ℕ → Transport → Transport → Type 0
Ended cs t t' =
    (d : ℕ) → t'.channel d ≡ (if has d cs then handle_closed (t.channel d) else t.channel d)

Ended-step :
    (c : ℕ) (cs sockets : List ℕ) (t t' : Transport)
    → has c cs ≡ false
    → Ended cs (record (set_channel c handle_closed t) { sockets = sockets }) t'
    → Ended (c ∷ cs) t t'
Ended-step c cs sockets t t' once ended d = elim (Bool-cases (c == d)) [
  | inl k ↦
      let absent : has d cs ≡ false = subst (λ x. has x cs ≡ false) ((==_iff c d).0 k) once in
      ended d ∙ rw (absent, k) refl
  | inr k ↦ ended d ∙ rw k refl
]

suc-eq_zero : (k : ℕ) → (suc k == 0) ≡ false
suc-eq_zero k = ground arith

not_empty : (c : ℕ) (ds : List ℕ) → has c ds ≡ true → (length ds == 0) ≡ false
not_empty c [] h = absurd (ground arith)
not_empty c (d ∷ ds) h = suc-eq_zero (length ds)

disconnect-next :
    (c : ℕ) (cs : List ℕ) (t : Transport)
    → has c t.sockets ≡ true
    → disconnect (c ∷ cs) t
      ≡ disconnect cs (record (set_channel c handle_closed t) { sockets = without c t.sockets })
unfolding disconnect channel_closed
disconnect-next c cs t h =
    ap (λ b. if b then ok t else (channel_closed c t >>= disconnect cs)) (not_empty c t.sockets h)
    ∙ ap (λ m. m >>= disconnect cs) (drop_socket_lem c (set_channel c handle_closed t) h)

disconnect_lem :
    (cs sockets : List ℕ) (t : Transport)
    → t.sockets ≡ sockets
    → Clears cs sockets
    → Distinct cs
    → (t' : Transport) × (disconnect cs t ≡ ok t') × (t'.sockets ≡ []) × Ended cs t t'
unfolding disconnect
disconnect_lem _ _ t e none_left d =
    (t, ap (λ l. if length l == 0 then ok t else timeout) e, e, λ x. refl)
disconnect_lem _ _ t e (next c cs sockets h clears) (once, d) =
    let h' : has c t.sockets ≡ true = ap (has c) e ∙ h in
    let t1 : Transport = record (set_channel c handle_closed t) { sockets = without c t.sockets } in
    let (t', run, none_more, ended) =
      disconnect_lem cs (without c sockets) t1 (ap (without c) e) clears d in
    (
      t',
      disconnect-next c cs t h' ∙ run,
      none_more,
      Ended-step c cs (without c t.sockets) t t' once ended,
    )

-- When the thread of a transport, which polls its two own sockets and those of some channels, is
-- to end, and these channels turn out to be disconnected, each once and in any order, it throws
-- ERR_SOCKET_SYSCALL_FAILED if the shutdown of the socket of any channel of the transport fails,
-- and otherwise comes to its end without a socket left. A channel of the transport is closed
-- then if it was among these, and otherwise left `closing`.
pub do_shutdown_lem :
    (fails : ℕ → Bool) (cs sockets : List ℕ) (t : Transport)
    → t.sockets ≡ t.ctrl_in ∷ t.serversock ∷ sockets
    → Clears cs sockets
    → Distinct cs
    → (t' : Transport) × (do_shutdown fails cs t
        ≡ (if any_fails fails t.channels then error err_socket_syscall_failed else ok t'))
      × (t'.sockets ≡ [])
      × ((d : ℕ) → has d t.channels ≡ true → state_of d t' ≡ (if has d cs then closed else closing))
unfolding do_shutdown close_channels
do_shutdown_lem fails cs sockets t e clears distinct =
    let t1 : Transport = record t { sockets = t.serversock ∷ sockets } in
    let t2 : Transport = record t { sockets = sockets } in
    let t3 : Transport = closing_all t.channels t2 in
    let (t', run, none_more, ended) =
      disconnect_lem cs sockets t3 (closing_all-sockets t.channels t2) clears distinct in
    (
      t',
      rw
          (
            drop_socket-first t.ctrl_in (t.serversock ∷ sockets) t e,
            drop_socket-first t.serversock sockets t1 refl,
            close_all-eq fails t.channels t2,
          )
          (elim (Bool-cases (any_fails fails t.channels)) [ inl f ↦ rw f refl | inr f ↦ rw f run ]),
      none_more,
      λ d among.
          let was : state_of d t3 ≡ closing = closing_all_lem d t.channels t2 among in
          elim (Bool-cases (has d cs)) [
            | inl k ↦ ap (λ c. c.state) (ended d) ∙ rw k (close_then (t3.channel d) was)
            | inr k ↦ ap (λ c. c.state) (ended d) ∙ rw k was
          ],
    )
