-- ===== src/Transport/Commands.antt =====
-- The thread of a transport takes over the channels that were connected before its end was asked for.
use libremo.Prelude.{
  ℕ, zero, suc, ◌≤◌, ◌≡◌, refl, sym, ap, ◌∙◌, true, false, List, [], ◌∷◌, ◌++◌, map, append-nil,
  append_assoc, if◌then◌else◌, none, some, length, take, take_all, replicate, arith,
}
use libremo.Error.{Result, ok, timeout, ◌>>=◌}
use libremo.Socket.{SendRet, sent, send}
use libremo.Transport.{
  Transport, send_command, shutdown_thread, do_add_channel, Arrival, first, nothing, handle_cmd,
  handle_first, obey,
}

-- The loop of the thread, as far as it obeys commands, one of these arrivals in each round.
unfoldable pub obey_until_end : List Arrival → Transport → Result Transport
obey_until_end [] t = if t.termination_requested then ok t else timeout
obey_until_end (a ∷ later) t =
    let rest = (do t' ← handle_cmd a t; obey_until_end later t') in
    if t.termination_requested then ok t else rest

-- The thread is asked for these channels, then for its end; with what becomes of each send().
unfoldable pub ask : List (ℕ × SendRet) → SendRet → Transport → Result Transport
ask [] ret t = shutdown_thread ret t
ask ((c, r) ∷ cs) ret t = do t' ← send_command r (some c) t; ask cs ret t'

-- send() takes all of each command.
abbrev pub all_sent : List ℕ → List (ℕ × SendRet)
all_sent cs = map (λ c. (c, sent 8)) cs

ask_lem :
    (cs : List ℕ) (t : Transport)
    → ask (all_sent cs) (sent 8) t
      ≡ ok (record t { commands = t.commands ++ (map some cs ++ none ∷ []) })
unfolding ask send_command shutdown_thread send
ask_lem [] t = refl
ask_lem (c ∷ cs) t =
    ask_lem cs (record t { commands = t.commands ++ some c ∷ [] })
    ∙ ap (λ l. ok (record t { commands = l }))
        (append_assoc t.commands (some c ∷ []) (map some cs ++ none ∷ []))

obey-end :
    (more : List Arrival) (t : Transport)
    → t.termination_requested ≡ true
    → obey_until_end more t ≡ ok t
unfolding obey_until_end
obey-end [] t r = rw r refl
obey-end (a ∷ more) t r = rw r refl

obey-next :
    (a : Arrival) (more : List Arrival) (t t' : Transport)
    → t.termination_requested ≡ false
    → handle_cmd a t ≡ ok t'
    → obey_until_end (a ∷ more) t ≡ obey_until_end more t'
unfolding obey_until_end
obey-next a more t t' r e =
    ap (λ b. if b then ok t else (handle_cmd a t >>= obey_until_end more)) r
    ∙ ap (λ o. o >>= obey_until_end more) e

-- The thread takes over the first channels, one in each round.
obey-some :
    (j : ℕ) (cs : List ℕ) (t : Transport) (more : List Arrival)
    → j ≤ length cs
    → t.termination_requested ≡ false
    → t.commands ≡ map some cs ++ none ∷ []
    → (t1 : Transport) × (obey_until_end (replicate j first ++ more) t ≡ obey_until_end more t1)
      × (t1.sockets ≡ t.sockets ++ take j cs)
      × (t1.termination_requested ≡ false)
      × (j ≡ length cs → t1.commands ≡ none ∷ [])
unfolding handle_cmd handle_first obey
obey-some zero [] t more h r e = (t, refl, sym (append-nil t.sockets), r, λ k. e)
obey-some zero (c ∷ cs) t more h r e =
    (t, refl, sym (append-nil t.sockets), r, λ k. absurd (omega arith))
obey-some (suc j) [] t more h r e = absurd (omega arith)
obey-some (suc j) (c ∷ cs) t more h r e =
    let left : Transport = record t { commands = map some cs ++ none ∷ [] } in
    let (t1, run, sockets, going, last) =
      obey-some j cs (do_add_channel c left) more (omega arith) r refl in
    (
      t1,
      obey-next first (replicate j first ++ more) t (do_add_channel c left) r
            (ap (λ l. handle_first l t) e)
          ∙ run,
      sockets ∙ append_assoc t.sockets (c ∷ []) (take j cs),
      going,
      λ k. last (omega arith),
    )

replicate-shift :
    (n : ℕ) (more : List Arrival)
    → replicate (suc n) first ++ more ≡ replicate n first ++ first ∷ more
replicate-shift zero more = refl
replicate-shift (suc n) more = ap (λ l. first ∷ l) (replicate-shift n more)

-- When channels are handed to the thread of a transport, which has no commands before and was
-- not asked to end, and then its end is asked for, and send() takes all of these commands, the
-- thread takes over all of the channels, in order, before it is to end, provided that each
-- recv() of its gets the first datagram and none is lost. If a recv() gets nothing, the thread
-- is to end then, with the channels only that it got before.
pub ask-obey :
    (cs : List ℕ) (j : ℕ) (more : List Arrival) (t : Transport)
    → t.termination_requested ≡ false
    → t.commands ≡ []
    → j ≤ length cs
    → (asked : Transport) × (ask (all_sent cs) (sent 8) t ≡ ok asked)
      × ((t1 : Transport) × (obey_until_end (replicate (suc (length cs)) first ++ more) asked
            ≡ ok t1)
          × (t1.sockets ≡ t.sockets ++ cs)
          × (t1.termination_requested ≡ true))
      × ((t2 : Transport) × (obey_until_end (replicate j first ++ nothing ∷ more) asked ≡ ok t2)
          × (t2.sockets ≡ t.sockets ++ take j cs)
          × (t2.termination_requested ≡ true))
unfolding handle_cmd handle_first obey
ask-obey cs j more t r e h =
    let asked : Transport = record t { commands = t.commands ++ (map some cs ++ none ∷ []) } in
    let queue : asked.commands ≡ map some cs ++ none ∷ [] =
      ap (λ l. l ++ (map some cs ++ none ∷ [])) e in
    let (t1, run1, sockets1, going1, last) =
      obey-some (length cs) cs asked (first ∷ more) (omega arith) r queue in
    let (t2, run2, sockets2, going2, _) = obey-some j cs asked (nothing ∷ more) h r queue in
    let end1 : Transport = record t1 { commands = []; termination_requested = true } in
    let end2 : Transport = record t2 { termination_requested = true } in
    (
      asked,
      ask_lem cs t,
      (
        end1,
        ap (λ l. obey_until_end l asked) (replicate-shift (length cs) more)
            ∙ run1
            ∙ obey-next first more t1 end1 going1 (ap (λ l. handle_first l t1) (last refl))
            ∙ obey-end more end1 refl,
        sockets1 ∙ ap (λ l. t.sockets ++ l) (take_all (length cs) cs (omega arith)),
        refl,
      ),
      (
        end2,
        run2 ∙ obey-next nothing more t2 end2 going2 refl ∙ obey-end more end2 refl,
        sockets2,
        refl,
      ),
    )
