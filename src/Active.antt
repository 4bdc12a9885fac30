-- ===== src/Active.antt =====
-- src/utils/active.h and active.cpp: an object whose calls are carried out by a thread of its own.
pub mod Order
pub mod Drain
use libremo.Prelude.{
  ℕ, Bool, true, false, List, [], ◌∷◌, ◌++◌, Option, none, some, if◌then◌else◌, not, ◌&&◌,
}
use libremo.Error.{Result, ok, error, fault, timeout, ◌>>=◌}
use libremo.Worker.{Worker, Point, at_loop, new_worker, worker_startup, terminate, run, join}

-- A deferred call; `none` is the empty function. `puts` are the items that were put into the queue so far,
-- and `done` the calls that were carried out, both in order.
pub record ActiveObject : Type 0 where
  pub worker : Worker
  pub queue : List (Option ℕ)
  pub puts : List (Option ℕ)
  pub done : List ℕ

-- ActiveQueue::put
abbrev pub put_item : Option ℕ → ActiveObject → ActiveObject
put_item item a = record a { queue = a.queue ++ item ∷ []; puts = a.puts ++ item ∷ [] }

-- ActiveQueue::get: the thread waits while there is no item.
unfoldable pub get_item : List (Option ℕ) → Result (Option ℕ × List (Option ℕ))
get_item [] = timeout
get_item (item ∷ queue) = ok (item, queue)

-- ActiveObject::ActiveObject
unfoldable pub new_active : Worker → Result ActiveObject
unfolding worker_startup
new_active worker = do
  w ← worker_startup worker
  ok (record { worker = w; queue = []; puts = []; done = [] })

-- ActiveObject::shutdown
abbrev pub active_shutdown : ActiveObject → ActiveObject
active_shutdown a = put_item none a

abbrev pub enqueue : ℕ → ActiveObject → ActiveObject
enqueue call a = put_item (some call) a

-- ActiveObject::action, with the item from the queue
pub carry_out : Option ℕ → ActiveObject → ActiveObject
carry_out none a = record a { worker = terminate a.worker }
carry_out (some call) a = record a { done = a.done ++ call ∷ [] }

unfoldable pub action : ActiveObject → Result ActiveObject
unfolding carry_out get_item
action a = do (item, queue) ← get_item a.queue; ok (carry_out item (record a { queue = queue }))

pub is_loop : Point → Bool
is_loop at_loop = true
is_loop _ = false

-- The next part of Worker::run, with this action.
unfoldable pub run_active : ActiveObject → Result ActiveObject
unfolding action run is_loop
run_active a =
    if is_loop a.worker.point && not a.worker.termination_requested
    then action a
    else (do w ← run (λ v. v) a.worker; ok (record a { worker = w }))

-- ActiveObject::~ActiveObject, behind its call of shutdown
unfoldable pub join_active : ActiveObject → Result ActiveObject
unfolding join
join_active a = do w ← join a.worker; ok (record a { worker = w })
