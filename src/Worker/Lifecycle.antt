-- ===== src/Worker/Lifecycle.antt =====
-- The states of a worker in the course of time.
use libremo.Prelude.{
  ◌≡◌, refl, ap, ◌∙◌, ℕ, Bool, true, false, List, [], ◌∷◌, ◌++◌, Option, none, some, arith, ◌==◌,
  if◌then◌else◌,
}
use libremo.Error.{Result, ok, ◌>>=◌, Yields, Yields->>=, Yields-map}
use libremo.Worker.{
  ThreadState, idle, starting, startup, running, shutdown, terminated, joined, Point, no_thread,
  at_start, at_startup, at_loop, at_shutdown, at_end, was_joined, Worker, new_worker, terminate,
  worker_startup, inserted, enter_thread_state, actual, worker_shutdown, join, joined_at, run,
  run_at, register_thread, unregister_thread, is_idle,
}

-- A call by the owner of the worker, or a part of `run`, in which an action may ask for the end.
pub data Event : Type 0 where
  starts : Event
  shuts_down : Event
  joins : Event
  runs : Bool → Event

unfoldable pub acting : Bool → Worker → Worker
acting true w = terminate w
acting false w = w

pub happens : Event → Worker → Result Worker
unfolding worker_startup join run acting
happens starts w = worker_startup w
happens shuts_down w = ok (worker_shutdown w)
happens joins w = join w
happens (runs b) w = run (acting b) w

unfoldable pub happen : List Event → Worker → Result Worker
unfolding happens
happen [] w = ok w
happen (e ∷ es) w = do w' ← happens e w; happen es w'

abbrev pub life_cycle : List ThreadState
life_cycle = starting ∷ startup ∷ running ∷ shutdown ∷ terminated ∷ joined ∷ []

-- The states entered up to a point, and those to come.
pub before : Point → List ThreadState
before no_thread = []
before at_start = starting ∷ []
before at_startup = starting ∷ startup ∷ []
before at_loop = starting ∷ startup ∷ running ∷ []
before at_shutdown = starting ∷ startup ∷ running ∷ shutdown ∷ []
before at_end = starting ∷ startup ∷ running ∷ shutdown ∷ terminated ∷ []
before was_joined = life_cycle

pub state_at : Point → ThreadState
state_at no_thread = idle
state_at at_start = starting
state_at at_startup = startup
state_at at_loop = running
state_at at_shutdown = shutdown
state_at at_end = terminated
state_at was_joined = joined

-- The thread is entered in the map while it runs between its first and its last state.
pub entry_at : Point → ℕ → Option ℕ
entry_at no_thread self = none
entry_at at_start self = none
entry_at at_startup self = some self
entry_at at_loop self = some self
entry_at at_shutdown self = some self
entry_at at_end self = none
entry_at was_joined self = none

-- Whether the loop of `run` is behind.
pub left_loop : Point → Bool
left_loop at_shutdown = true
left_loop at_end = true
left_loop was_joined = true
left_loop _ = false

pub record IsAlive (w : Worker) : Type 0 where
  pub entered : w.entered ≡ before w.point
  pub state : w.thread_state ≡ state_at w.point
  pub entry : w.workers w.thread ≡ entry_at w.point w.self
  pub ended : left_loop w.point ≡ true → w.termination_requested ≡ true

same_number : (n : ℕ) → (n == n) ≡ true
same_number n = ground arith

-- The next state is entered.
step_entered :
    (p q : Point) (s : ThreadState) (w : Worker)
    → w.point ≡ p
    → IsAlive w
    → before p ++ s ∷ [] ≡ before q
    → w.entered ++ s ∷ [] ≡ before q
step_entered p q s w e v f = ap (λ l. l ++ s ∷ []) (v.entered ∙ ap before e) ∙ f

entry_of :
    (p : Point) (w : Worker) → w.point ≡ p → IsAlive w → w.workers w.thread ≡ entry_at p w.self
entry_of p w e v = v.entry ∙ ap (λ q. entry_at q w.self) e

pub startup_at :
    (p : Point) (w : Worker) → w.point ≡ p → IsAlive w → Yields IsAlive (worker_startup w)
unfolding worker_startup before state_at entry_at left_loop is_idle
startup_at no_thread w e v = rw (v.state ∙ ap state_at e) (record {
  entered = step_entered no_thread at_start starting w e v refl;
  state = refl;
  entry = entry_of no_thread w e v;
  ended = λ h. absurd (ground arith);
})
startup_at at_start w e v = rw (v.state ∙ ap state_at e) tt
startup_at at_startup w e v = rw (v.state ∙ ap state_at e) tt
startup_at at_loop w e v = rw (v.state ∙ ap state_at e) tt
startup_at at_shutdown w e v = rw (v.state ∙ ap state_at e) tt
startup_at at_end w e v = rw (v.state ∙ ap state_at e) tt
startup_at was_joined w e v = rw (v.state ∙ ap state_at e) tt

pub acting-IsAlive : (b : Bool) (w : Worker) → IsAlive w → IsAlive (acting b w)
unfolding acting
acting-IsAlive false w v = v
acting-IsAlive true w v = record {
  entered = v.entered;
  state = v.state;
  entry = v.entry;
  ended = λ h. refl;
}

loop-IsAlive :
    (requested b : Bool) (w : Worker)
    → w.termination_requested ≡ requested
    → w.point ≡ at_loop
    → IsAlive w
    → Yields IsAlive (
        if requested
        then ok (record (enter_thread_state shutdown w) { point = at_shutdown })
        else ok (acting b w))
unfolding before state_at entry_at
loop-IsAlive true b w h e v = record {
  entered = step_entered at_loop at_shutdown shutdown w e v refl;
  state = refl;
  entry = entry_of at_loop w e v;
  ended = λ k. h;
}
loop-IsAlive false b w h e v = acting-IsAlive b w v

pub run_at-IsAlive :
    (p : Point) (b : Bool) (w : Worker)
    → w.point ≡ p
    → IsAlive w
    → Yields IsAlive (run_at p (acting b) w)
unfolding run_at before state_at entry_at left_loop register_thread unregister_thread inserted
run_at-IsAlive no_thread b w e v = tt
run_at-IsAlive at_end b w e v = tt
run_at-IsAlive was_joined b w e v = tt
run_at-IsAlive at_start b w e v = record {
  entered = step_entered at_start at_startup startup w e v refl;
  state = refl;
  entry = rw (same_number w.thread, entry_of at_start w e v) refl;
  ended = λ h. absurd (ground arith);
}
run_at-IsAlive at_startup b w e v = record {
  entered = step_entered at_startup at_loop running w e v refl;
  state = refl;
  entry = entry_of at_startup w e v;
  ended = λ h. absurd (ground arith);
}
run_at-IsAlive at_loop b w e v = loop-IsAlive w.termination_requested b w refl e v
run_at-IsAlive at_shutdown b w e v = record {
  entered = step_entered at_shutdown at_end terminated w e v refl;
  state = refl;
  entry = rw (same_number w.thread) refl;
  ended = λ h. v.ended (ap left_loop e);
}

pub joined_at-IsAlive :
    (p : Point) (w : Worker) → w.point ≡ p → IsAlive w → Yields IsAlive (joined_at p w)
unfolding joined_at before state_at entry_at left_loop
joined_at-IsAlive no_thread w e v = tt
joined_at-IsAlive was_joined w e v = tt
joined_at-IsAlive at_start w e v = tt
joined_at-IsAlive at_startup w e v = tt
joined_at-IsAlive at_loop w e v = tt
joined_at-IsAlive at_shutdown w e v = tt
joined_at-IsAlive at_end w e v = record {
  entered = step_entered at_end was_joined joined w e v refl;
  state = refl;
  entry = entry_of at_end w e v;
  ended = λ h. v.ended (ap left_loop e);
}

pub happens-IsAlive : (e : Event) (w : Worker) → IsAlive w → Yields IsAlive (happens e w)
unfolding happens run join
happens-IsAlive starts w v = startup_at w.point w refl v
happens-IsAlive shuts_down w v = acting-IsAlive true w v
happens-IsAlive joins w v = joined_at-IsAlive w.point w refl v
happens-IsAlive (runs b) w v = run_at-IsAlive w.point b w refl v

happen-IsAlive : (es : List Event) (w : Worker) → IsAlive w → Yields IsAlive (happen es w)
unfolding happen
happen-IsAlive [] w v = v
happen-IsAlive (e ∷ es) w v =
    Yields->>= IsAlive IsAlive (happens e w) (λ w'. happen es w') (happens-IsAlive e w v)
      (λ w' v'. happen-IsAlive es w' v')

-- The states to come.
pub after : Point → List ThreadState
after no_thread = life_cycle
after at_start = startup ∷ running ∷ shutdown ∷ terminated ∷ joined ∷ []
after at_startup = running ∷ shutdown ∷ terminated ∷ joined ∷ []
after at_loop = shutdown ∷ terminated ∷ joined ∷ []
after at_shutdown = terminated ∷ joined ∷ []
after at_end = joined ∷ []
after was_joined = []

before-after : (p : Point) → before p ++ after p ≡ life_cycle
unfolding before after
before-after no_thread = refl
before-after at_start = refl
before-after at_startup = refl
before-after at_loop = refl
before-after at_shutdown = refl
before-after at_end = refl
before-after was_joined = refl

pub new_worker-IsAlive :
    (self thread : ℕ) (workers : ℕ → Option ℕ)
    → workers thread ≡ none
    → IsAlive (new_worker self thread workers)
unfolding before state_at entry_at left_loop
new_worker-IsAlive self thread workers h = record {
  entered = refl;
  state = refl;
  entry = h;
  ended = λ e. absurd (ground arith);
}

-- What holds of a worker at any time: the states entered so far begin the life cycle, the thread is entered in the map
-- of workers from its first state to its last one and not before or after, and it leaves its loop only when its end
-- was requested.
abbrev pub InOrder : Worker → Type 0
InOrder w =
    (w.entered ++ after w.point ≡ life_cycle)
    × (actual w.thread w ≡ entry_at w.point w.self)
    × (w.thread_state ≡ state_at w.point)
    × (left_loop w.point ≡ true → w.termination_requested ≡ true)

in_order : (w : Worker) → IsAlive w → InOrder w
in_order w v =
    (ap (λ l. l ++ after w.point) v.entered ∙ before-after w.point, v.entry, v.state, v.ended)

-- Whatever its owner and its thread do, in any order, the states that a new worker has entered
-- begin its life cycle, its thread is in the map of workers from `startup` to `shutdown` and not
-- before or after, and it leaves its loop only when its end was requested, provided that the
-- thread was not in the map before.
pub happen-InOrder :
    (es : List Event) (self thread : ℕ) (workers : ℕ → Option ℕ)
    → workers thread ≡ none
    → Yields InOrder (happen es (new_worker self thread workers))
happen-InOrder es self thread workers h =
    Yields-map IsAlive InOrder (happen es (new_worker self thread workers))
      (happen-IsAlive es (new_worker self thread workers)
        (new_worker-IsAlive self thread workers h))
      in_order
