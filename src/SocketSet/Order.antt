-- ===== src/SocketSet/Order.antt =====
-- Each socket that is ready is handled once, whatever the handlers do to the set.
use libremo.Prelude.{
  ℕ, suc, ◌+◌, ◌≡◌, refl, sym, ap, ◌∙◌, false, List, [], ◌∷◌, ◌++◌, append_assoc, append-nil,
  if◌then◌else◌, some, length, get_elem?, map, has, ==_refl, arith, Bool-cases, inl, inr,
}
use libremo.Error.{ok}
use libremo.SocketSet.Upside.{
  upside, get-upside_from, append-upside, erase-upside_from, index_of-upside, length-upside,
}
use libremo.SocketSet.{
  PollFd, SocketSet, Sockets, Handled, Reaction, stays, leaves, brings, receive_ready, disconnected,
  Polled, new_pollfd, erase, index_of, remove_socket, remove_at, add_socket, react, handle,
  dispatch, poll_loop, poll,
}

abbrev pub Entry : Type 0
Entry = ℕ × PollFd

abbrev pub socket_of : Entry → ℕ
socket_of e = e.0

abbrev pub pollfd_of : Entry → PollFd
pollfd_of e = e.1

-- The calls for a socket and its pollfd, and what it adds to the number of sockets that are ready.
unfoldable pub calls_of : Entry → List Handled
calls_of (s, p) =
    if p.in_ready then receive_ready s ∷ [] else (if p.hung_up then disconnected s ∷ [] else [])

abbrev pub ready_of : Entry → ℕ
ready_of (s, p) = if p.in_ready then 1 else 0

unfoldable pub all_calls : List Entry → List Handled
all_calls [] = []
all_calls (e ∷ es) = calls_of e ++ all_calls es

unfoldable pub num_ready : List Entry → ℕ
num_ready [] = 0
num_ready (e ∷ es) = ready_of e + num_ready es

-- The entries from the last one on: every socket is there once, under its own descriptor.
abbrev pub IsPolled : Sockets → List Entry → Type 0
IsPolled o [] = Unit
IsPolled o (e ∷ es) =
    ((pollfd_of e).fd ≡ o.get_fd (socket_of e))
    × (has (socket_of e) (map socket_of es) ≡ false)
    × IsPolled o es

-- The set has these entries, from the last one on, and others behind them.
pub record Shows (es : List Entry) (s : SocketSet) : Type 0 where
  pub more : List ℕ
  pub more_fds : List PollFd
  pub sockets : s.sockets ≡ upside (map socket_of es) more
  pub pollfds : s.pollfds ≡ upside (map pollfd_of es) more_fds

length-map : {A B : Type 0} (f : A → B) (xs : List A) → length (map f xs) ≡ length xs
length-map f [] = refl
length-map f (x ∷ xs) = ap suc (length-map f xs)

first_index : (t : ℕ) (ts : List ℕ) (k : ℕ) → index_of t k (t ∷ ts) ≡ some k
unfolding index_of
first_index t ts k = rw (==_refl t) refl

erased :
    {B : Type 0} (f : Entry → B) (es : List Entry) (x : B) (ys zs : List B)
    → zs ≡ upside (map f es) (x ∷ ys)
    → erase (length es + 0) zs ≡ upside (map f es) ys
unfolding erase
erased f es x ys zs e =
    ap (λ l. erase (length es + 0) l) e
    ∙ ap (λ n. erase (n + 0) (upside (map f es) (x ∷ ys))) (sym (length-map f es))
    ∙ erase-upside_from (map f es) 0 (x ∷ ys)

last_entry :
    {B : Type 0} (f : Entry → B) (es : List Entry) (x : B) (ys zs : List B)
    → zs ≡ upside (map f es) (x ∷ ys)
    → get_elem? zs (length es) ≡ some x
last_entry f es x ys zs e =
    let z : length es ≡ length (map f es) + 0 = omega (arith, length-map f es) in
    ap (λ l. get_elem? l (length es)) e
    ∙ ap (λ n. get_elem? (upside (map f es) (x ∷ ys)) n) z
    ∙ get-upside_from (map f es) 0 (x ∷ ys)

-- A handler leaves the entries in front of its own as they are.
react-Shows :
    (o : Sockets) (r : Reaction) (e : Entry) (es : List Entry) (s : SocketSet)
    → has (socket_of e) (map socket_of es) ≡ false
    → Shows (e ∷ es) s
    → (s' : SocketSet) × (react o r (socket_of e) s ≡ ok s') × Shows es s'
unfolding react add_socket remove_socket remove_at
react-Shows o stays e es s d v = (
  s,
  refl,
  record {
    more = socket_of e ∷ v.more;
    more_fds = pollfd_of e ∷ v.more_fds;
    sockets = v.sockets;
    pollfds = v.pollfds;
  },
)
react-Shows o (brings t) e es s d v = (
  add_socket (o.get_fd t) t s,
  refl,
  record {
    more = (socket_of e ∷ v.more) ++ t ∷ [];
    more_fds = (pollfd_of e ∷ v.more_fds) ++ new_pollfd (o.get_fd t) ∷ [];
    sockets = ap (λ l. l ++ t ∷ []) v.sockets ∙ append-upside (map socket_of es) _ (t ∷ []);
    pollfds =
        ap (λ l. l ++ new_pollfd (o.get_fd t) ∷ []) v.pollfds
        ∙ append-upside (map pollfd_of es) _ (new_pollfd (o.get_fd t) ∷ []);
  },
)
react-Shows o leaves e es s d v =
    let found : index_of (socket_of e) 0 s.sockets ≡ some (length es + 0) =
      ap (index_of (socket_of e) 0) v.sockets
      ∙ index_of-upside (socket_of e) (map socket_of es) (socket_of e ∷ v.more) 0 d
      ∙ first_index (socket_of e) v.more (length (map socket_of es) + 0)
      ∙ ap (λ n. some (n + 0)) (length-map socket_of es) in
    (
      record {
        sockets = erase (length es + 0) s.sockets;
        pollfds = erase (length es + 0) s.pollfds;
      },
      ap (λ i. remove_at i s) found,
      record {
        more = v.more;
        more_fds = v.more_fds;
        sockets = erased socket_of es (socket_of e) v.more s.sockets v.sockets;
        pollfds = erased pollfd_of es (pollfd_of e) v.more_fds s.pollfds v.pollfds;
      },
    )

handle_lem :
    (o : Sockets) (h : Handled) (ready : ℕ) (e : Entry) (es : List Entry) (p : Polled)
    → has (socket_of e) (map socket_of es) ≡ false
    → Shows (e ∷ es) p.set
    → (p' : Polled) × (handle o h ready (socket_of e) p ≡ ok p')
      × Shows es p'.set
      × (p'.handled ≡ p.handled ++ h ∷ [])
      × (p'.num_receive_ready ≡ p.num_receive_ready + ready)
unfolding handle
handle_lem o h ready e es p d v =
    let (set, run, v') = react-Shows o (o.handler h) e es p.set d v in
    (
      record {
        set = set;
        num_receive_ready = p.num_receive_ready + ready;
        handled = p.handled ++ h ∷ [];
      },
      rw run refl,
      v',
      refl,
      refl,
    )

abbrev Dispatched : Sockets → Entry → List Entry → Polled → Polled → Type 0
Dispatched o e es p p' =
    Shows es p'.set
    × (p'.handled ≡ p.handled ++ calls_of e)
    × (p'.num_receive_ready ≡ p.num_receive_ready + ready_of e)

plus_zero : (n : ℕ) → n ≡ n + 0
plus_zero n = omega arith

dispatch_lem :
    (o : Sockets) (e : Entry) (es : List Entry) (p : Polled)
    → has (socket_of e) (map socket_of es) ≡ false
    → Shows (e ∷ es) p.set
    → (p' : Polled) × (dispatch o (socket_of e) (pollfd_of e) p ≡ ok p') × Dispatched o e es p p'
unfolding dispatch calls_of
dispatch_lem o e es p d v = elim (Bool-cases (pollfd_of e).in_ready) [
  | inl k ↦
      let (p', run, v', h, n) = handle_lem o (receive_ready (socket_of e)) 1 e es p d v in
      (p', rw k run, (v', rw k h, rw k n))
  | inr k ↦ elim (Bool-cases (pollfd_of e).hung_up) [
    | inl l ↦
        let (p', run, v', h, n) = handle_lem o (disconnected (socket_of e)) 0 e es p d v in
        (p', rw (k, l) run, (v', rw (k, l) h, rw k n))
    | inr l ↦ (
      p,
      rw (k, l) refl,
      (
        record {
          more = socket_of e ∷ v.more;
          more_fds = pollfd_of e ∷ v.more_fds;
          sockets = v.sockets;
          pollfds = v.pollfds;
        },
        rw (k, l) (sym (append-nil p.handled)),
        rw k (plus_zero p.num_receive_ready),
      ),
    )
  ]
]

poll_loop_lem :
    (o : Sockets) (es : List Entry) (p : Polled)
    → IsPolled o es
    → Shows es p.set
    → (p' : Polled) × (poll_loop o (length es) p ≡ ok p')
      × (p'.handled ≡ p.handled ++ all_calls es)
      × (p'.num_receive_ready ≡ p.num_receive_ready + num_ready es)
unfolding poll_loop all_calls num_ready
poll_loop_lem o [] p ok_all v = (p, refl, sym (append-nil p.handled), omega arith)
poll_loop_lem o (e ∷ es) p (same, once, others) v =
    let (p1, run1, (v1, h1, n1)) = dispatch_lem o e es p once v in
    let (p', run, h, n) = poll_loop_lem o es p1 others v1 in
    (
      p',
      rw
          (
            last_entry pollfd_of es (pollfd_of e) v.more_fds p.set.pollfds v.pollfds,
            last_entry socket_of es (socket_of e) v.more p.set.sockets v.sockets,
            same,
            ==_refl (o.get_fd (socket_of e)),
            run1,
          )
          run,
      h ∙ ap (λ l. l ++ all_calls es) h1 ∙ append_assoc p.handled (calls_of e) (all_calls es),
      omega arith,
    )

-- When every socket is in the set once and under its own descriptor, and what each handler does
-- to the set is to remove its own socket or to add another one, or nothing, polling ends: from
-- the last socket to the first, each one with an event is handled once, and those that were
-- ready to receive are counted.
pub poll_lem :
    (o : Sockets) (es : List Entry) (s : SocketSet)
    → IsPolled o es
    → s.sockets ≡ upside (map socket_of es) []
    → (p : Polled) × (poll o (some (upside (map pollfd_of es) [])) s ≡ ok p)
      × (p.handled ≡ all_calls es)
      × (p.num_receive_ready ≡ num_ready es)
unfolding poll
poll_lem o es s ok_all e =
    let start : Polled = record {
      set = record s { pollfds = upside (map pollfd_of es) [] };
      num_receive_ready = 0;
      handled = [];
    } in
    let n : length s.sockets ≡ length es =
      omega (arith, ap length e, length-upside (map socket_of es) [], length-map socket_of es) in
    let m : length (upside (map pollfd_of es) []) ≡ length es =
      omega (arith, length-upside (map pollfd_of es) [], length-map pollfd_of es) in
    let (p, run, h, r) =
      poll_loop_lem o es start ok_all
        (record { more = []; more_fds = []; sockets = e; pollfds = refl }) in
    (p, rw (n, m, ==_refl (length es)) run, h, omega arith)
