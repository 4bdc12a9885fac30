-- ===== src/Active/Order.antt =====
-- The calls of an active object are carried out in order.
use libremo.Prelude.{
  ℕ, ◌≡◌, refl, sym, ap, ◌∙◌, Bool, true, false, not, List, [], ◌∷◌, ◌++◌, map, append_assoc,
  append-nil, Option, none, some, ◌&&◌, if◌then◌else◌, arith,
}
use libremo.Error.{
  Result, ok, error, fault, timeout, ◌>>=◌, Yields, Yields->>=, Yields-map, Yields-pair,
}
use libremo.Worker.{Worker, new_worker, worker_startup, run, join}
use libremo.Worker.Lifecycle.{IsAlive, left_loop, startup_at, new_worker-IsAlive}
use libremo.Worker.Requests.{
  terminate-IsAlive, run-IsAlive, join-IsAlive, run-requested, join-requested, startup-requested,
}
use libremo.Active.{
  ActiveObject, put_item, get_item, new_active, active_shutdown, enqueue, carry_out, action,
  run_active, join_active, is_loop,
}

-- A call by another thread, or a part of `run`.
pub data Happening : Type 0 where
  enqueues : ℕ → Happening
  shuts_down : Happening
  runs_on : Happening
  joins_in : Happening

unfoldable pub takes_place : Happening → ActiveObject → Result ActiveObject
unfolding run_active join_active
takes_place (enqueues call) a = ok (enqueue call a)
takes_place shuts_down a = ok (active_shutdown a)
takes_place runs_on a = run_active a
takes_place joins_in a = join_active a

unfoldable pub take_place : List Happening → ActiveObject → Result ActiveObject
unfolding takes_place
take_place [] a = ok a
take_place (h ∷ hs) a = do a' ← takes_place h a; take_place hs a'

-- The calls in front of the first shutdown.
unfoldable pub before_shutdown : List (Option ℕ) → List ℕ
before_shutdown [] = []
before_shutdown (none ∷ items) = []
before_shutdown (some call ∷ items) = call ∷ before_shutdown items

-- What was put is what was done, the shutdown that was met, and what is in the queue.
pub met : Bool → List (Option ℕ)
met true = none ∷ []
met false = []

pub record IsOrdered (a : ActiveObject) : Type 0 where
  pub alive : IsAlive a.worker
  pub order : a.puts ≡ map some a.done ++ (met a.worker.termination_requested ++ a.queue)

-- The worker goes on, and nothing else changes.
with_worker :
    (a : ActiveObject) (m : Result Worker)
    → IsOrdered a
    → Yields IsAlive m
    → Yields (λ v. v.termination_requested ≡ a.worker.termination_requested) m
    → Yields IsOrdered (m >>= λ w. ok (record a { worker = w }))
unfolding met
with_worker a (ok w) v alive same = record {
  alive = alive;
  order = v.order ∙ ap (λ b. map some a.done ++ (met b ++ a.queue)) (sym same);
}
with_worker a (error e) v alive same = tt
with_worker a fault v alive same = tt
with_worker a timeout v alive same = tt

map-snoc :
    (xs : List ℕ) (x : ℕ) (ys : List (Option ℕ))
    → map some (xs ++ x ∷ []) ++ ys ≡ map some xs ++ some x ∷ ys
map-snoc [] x ys = refl
map-snoc (y ∷ xs) x ys = ap (λ l. some y ∷ l) (map-snoc xs x ys)

action-IsOrdered :
    (queue : List (Option ℕ)) (a : ActiveObject)
    → a.queue ≡ queue
    → a.worker.termination_requested ≡ false
    → IsOrdered a
    → Yields IsOrdered
        (get_item queue >>= λ (item, rest). ok (carry_out item (record a { queue = rest })))
unfolding get_item carry_out met
action-IsOrdered [] a e h v = tt
action-IsOrdered (none ∷ queue) a e h v = record {
  alive = terminate-IsAlive a.worker v.alive;
  order = v.order ∙ rw (h, e) refl;
}
action-IsOrdered (some call ∷ queue) a e h v = record {
  alive = v.alive;
  order = v.order ∙ rw (h, e) (sym (map-snoc a.done call queue));
}

not_requested : (b r : Bool) → (b && not r) ≡ true → r ≡ false
not_requested true false e = refl
not_requested true true e = absurd (ground arith)
not_requested false r e = absurd (ground arith)

run_active-IsOrdered :
    (g : Bool) (a : ActiveObject)
    → (is_loop a.worker.point && not a.worker.termination_requested) ≡ g
    → IsOrdered a
    → Yields IsOrdered
        (if g then action a else (run (λ v. v) a.worker >>= λ w. ok (record a { worker = w })))
unfolding action
run_active-IsOrdered true a e v =
    action-IsOrdered a.queue a refl
      (not_requested (is_loop a.worker.point) a.worker.termination_requested e) v
run_active-IsOrdered false a e v =
    with_worker a (run (λ w. w) a.worker) v (run-IsAlive a.worker v.alive) (run-requested a.worker)

put-IsOrdered : (item : Option ℕ) (a : ActiveObject) → IsOrdered a → IsOrdered (put_item item a)
put-IsOrdered item a v = record {
  alive = v.alive;
  order =
      ap (λ l. l ++ item ∷ []) v.order
      ∙ append_assoc (map some a.done) (met a.worker.termination_requested ++ a.queue) (item ∷ [])
      ∙ ap (λ l. map some a.done ++ l)
          (append_assoc (met a.worker.termination_requested) a.queue (item ∷ []));
}

takes_place-IsOrdered :
    (h : Happening) (a : ActiveObject) → IsOrdered a → Yields IsOrdered (takes_place h a)
unfolding takes_place run_active join_active
takes_place-IsOrdered (enqueues call) a v = put-IsOrdered (some call) a v
takes_place-IsOrdered shuts_down a v = put-IsOrdered none a v
takes_place-IsOrdered runs_on a v =
    run_active-IsOrdered (is_loop a.worker.point && not a.worker.termination_requested) a refl v
takes_place-IsOrdered joins_in a v =
    with_worker a (join a.worker) v (join-IsAlive a.worker v.alive) (join-requested a.worker)

take_place-IsOrdered :
    (hs : List Happening) (a : ActiveObject) → IsOrdered a → Yields IsOrdered (take_place hs a)
unfolding take_place
take_place-IsOrdered [] a v = v
take_place-IsOrdered (h ∷ hs) a v =
    Yields->>= IsOrdered IsOrdered (takes_place h a) (λ a'. take_place hs a')
      (takes_place-IsOrdered h a v) (λ a' v'. take_place-IsOrdered hs a' v')

new_active-IsOrdered :
    (w : Worker) → IsAlive w → w.termination_requested ≡ false → Yields IsOrdered (new_active w)
unfolding new_active met
new_active-IsOrdered w v h =
    Yields->>= (λ w'. IsAlive w' × (w'.termination_requested ≡ false)) IsOrdered (worker_startup w)
      (λ w'. ok (record { worker = w'; queue = []; puts = []; done = [] }))
      (Yields-pair IsAlive (λ w'. w'.termination_requested ≡ false) (worker_startup w)
        (startup_at w.point w refl v) (startup-requested w h))
      (λ w' (v', h'). record { alive = v'; order = rw h' refl })

before_shutdown-done :
    (xs : List ℕ) (ys : List (Option ℕ))
    → before_shutdown (map some xs ++ ys) ≡ xs ++ before_shutdown ys
unfolding before_shutdown
before_shutdown-done [] ys = refl
before_shutdown-done (x ∷ xs) ys = ap (λ l. x ∷ l) (before_shutdown-done xs ys)

-- The calls that were carried out are the first of those that were enqueued before the object was shut
-- down, in order; when the thread has left its loop, they are all of these.
abbrev pub InSequence : ActiveObject → Type 0
InSequence a =
    ((rest : List ℕ) × (a.done ++ rest ≡ before_shutdown a.puts))
    × (left_loop a.worker.point ≡ true → a.done ≡ before_shutdown a.puts)

in_sequence : (a : ActiveObject) → IsOrdered a → InSequence a
unfolding met before_shutdown
in_sequence a v =
    let to_come : List (Option ℕ) = met a.worker.termination_requested ++ a.queue in
    (
      (
        before_shutdown to_come,
        sym (before_shutdown-done a.done to_come) ∙ ap before_shutdown (sym v.order),
      ),
      λ h. sym (
          ap before_shutdown
            (v.order ∙ ap (λ b. map some a.done ++ (met b ++ a.queue)) (v.alive.ended h))
          ∙ before_shutdown-done a.done (none ∷ a.queue)
          ∙ append-nil a.done),
    )

-- However the calls of other threads and the thread of a new active object interleave, the calls
-- that were carried out are the first of those that were enqueued before the object was shut
-- down, in order; when the thread has left its loop, they are all of these.
pub take_place-InSequence :
    (hs : List Happening) (self thread : ℕ) (workers : ℕ → Option ℕ)
    → workers thread ≡ none
    → Yields InSequence (new_active (new_worker self thread workers) >>= take_place hs)
take_place-InSequence hs self thread workers h =
    let w = new_worker self thread workers in
    Yields-map IsOrdered InSequence (new_active w >>= take_place hs)
      (Yields->>= IsOrdered IsOrdered (new_active w) (take_place hs)
        (new_active-IsOrdered w (new_worker-IsAlive self thread workers h) refl)
        (λ a v. take_place-IsOrdered hs a v))
      in_sequence
