-- ===== src/Worker.antt =====
-- src/l0_system/worker.h and worker.cpp: a thread with its states. The owner and the thread run side by
-- side, and what happens is a sequence of events of the two.
pub mod Lifecycle
pub mod Requests
use Prim.Native.String.{String}
use libremo.Prelude.{
  ℕ, Bool, true, false, not, ◌||◌, List, [], ◌∷◌, ◌++◌, Option, none, some, ◌==◌, if◌then◌else◌,
}
use libremo.Error.{Result, ok, error, fault, timeout, ◌>>=◌, remo_assert}

-- Worker::ThreadState
pub data ThreadState : Type 0 where
  idle : ThreadState
  starting : ThreadState
  startup : ThreadState
  running : ThreadState
  shutdown : ThreadState
  terminated : ThreadState
  joined : ThreadState

-- Where the thread stands in `run`; before it was started and after it was joined there is none.
pub data Point : Type 0 where
  no_thread : Point
  at_start : Point
  at_startup : Point
  at_loop : Point
  at_shutdown : Point
  at_end : Point
  was_joined : Point

-- `entered` are the states that were entered, in order. `workers` is the map of all workers, by the
-- numbers of their threads.
pub record Worker : Type 0 where
  pub self : ℕ
  pub thread : ℕ
  pub point : Point
  pub thread_state : ThreadState
  pub termination_requested : Bool
  pub entered : List ThreadState
  pub workers : ℕ → Option ℕ

abbrev pub new_worker : ℕ → ℕ → (ℕ → Option ℕ) → Worker
new_worker self thread workers = record {
  self = self;
  thread = thread;
  point = no_thread;
  thread_state = idle;
  termination_requested = false;
  entered = [];
  workers = workers;
}

abbrev pub enter_thread_state : ThreadState → Worker → Worker
enter_thread_state s w = record w { thread_state = s; entered = w.entered ++ s ∷ [] }

abbrev pub terminate : Worker → Worker
terminate w = record w { termination_requested = true }

-- An insertion into an unordered_map leaves the entry that is there.
pub inserted : Option ℕ → ℕ → Option ℕ
inserted none self = some self
inserted (some other) self = some other

unfoldable pub register_thread : Worker → Worker
unfolding inserted
register_thread w = record w {
  workers = λ t. if t == w.thread then inserted (w.workers t) w.self else w.workers t;
}

unfoldable pub unregister_thread : Worker → Worker
unregister_thread w = record w { workers = λ t. if t == w.thread then none else w.workers t }

-- Worker::actual, called by a thread
abbrev pub actual : ℕ → Worker → Option ℕ
actual t w = w.workers t

unfoldable pub is_idle : ThreadState → Bool
is_idle idle = true
is_idle _ = false

unfoldable pub is_joined : ThreadState → Bool
is_joined joined = true
is_joined _ = false

-- Worker::~Worker
unfoldable pub destroy_worker : Worker → Result (Unit {0})
unfolding is_idle is_joined
destroy_worker w = remo_assert (is_idle w.thread_state || is_joined w.thread_state)

-- Worker::startup
unfoldable pub worker_startup : Worker → Result Worker
unfolding is_idle
worker_startup w = do
  _ ← remo_assert (is_idle w.thread_state)
  ok (record (enter_thread_state starting w) { point = at_start })

-- Worker::shutdown
abbrev pub worker_shutdown : Worker → Worker
worker_shutdown w = terminate w

-- Worker::join: it waits for the end of the thread, and there must be one.
pub joined_at : Point → Worker → Result Worker
joined_at no_thread w = fault
joined_at was_joined w = fault
joined_at at_end w = ok (record (enter_thread_state joined w) { point = was_joined })
joined_at at_start w = timeout
joined_at at_startup w = timeout
joined_at at_loop w = timeout
joined_at at_shutdown w = timeout

unfoldable pub join : Worker → Result Worker
unfolding joined_at
join w = joined_at w.point w

-- The next part of `run`, up to where it looks at the state that it shares; `action` is one call of the
-- virtual member, whose exceptions are caught, as those of do_startup and do_shutdown are.
pub run_at : Point → (Worker → Worker) → Worker → Result Worker
unfolding register_thread unregister_thread
run_at no_thread action w = fault
run_at at_start action w =
    ok (record (enter_thread_state startup (register_thread w)) { point = at_startup })
run_at at_startup action w = ok (record (enter_thread_state running w) { point = at_loop })
run_at at_loop action w =
    if w.termination_requested
    then ok (record (enter_thread_state shutdown w) { point = at_shutdown })
    else ok (action w)
run_at at_shutdown action w =
    ok (record (enter_thread_state terminated (unregister_thread w)) { point = at_end })
run_at at_end action w = fault
run_at was_joined action w = fault

unfoldable pub run : (Worker → Worker) → Worker → Result Worker
unfolding run_at
run action w = run_at w.point action w

unfoldable pub get_state_str : ThreadState → String
get_state_str idle = "idle"
get_state_str starting = "starting"
get_state_str startup = "startup"
get_state_str running = "running"
get_state_str shutdown = "shutdown"
get_state_str terminated = "terminated"
get_state_str joined = "joined"
