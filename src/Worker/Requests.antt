-- ===== src/Worker/Requests.antt =====
-- Which parts of a worker ask for its end, and the parts one by one.
use libremo.Prelude.{◌≡◌, refl, sym, subst, true, false, Bool-cases, inl, inr, if◌then◌else◌}
use libremo.Error.{ok, Yields}
use libremo.Worker.{
  Worker, Point, no_thread, at_start, at_startup, at_loop, at_shutdown, at_end, was_joined,
  shutdown, terminated, enter_thread_state, terminate, worker_startup, run, run_at, join, joined_at,
  register_thread, unregister_thread, is_idle,
}
use libremo.Worker.Lifecycle.{IsAlive, acting, acting-IsAlive, run_at-IsAlive, joined_at-IsAlive}

run_at-requested :
    (p : Point) (w : Worker)
    → Yields (λ v. v.termination_requested ≡ w.termination_requested) (run_at p (λ v. v) w)
unfolding run_at register_thread unregister_thread
run_at-requested no_thread w = tt
run_at-requested at_start w = refl
run_at-requested at_startup w = refl
run_at-requested at_loop w = elim (Bool-cases w.termination_requested) [
  | inl e ↦
      subst
        (λ b.
          Yields (λ v. v.termination_requested ≡ w.termination_requested)
            (if b
              then ok (record (enter_thread_state shutdown w) { point = at_shutdown })
              else ok w))
        (sym e) refl
  | inr e ↦
      subst
        (λ b.
          Yields (λ v. v.termination_requested ≡ w.termination_requested)
            (if b
              then ok (record (enter_thread_state shutdown w) { point = at_shutdown })
              else ok w))
        (sym e) refl
]
run_at-requested at_shutdown w = refl
run_at-requested at_end w = tt
run_at-requested was_joined w = tt

joined_at-requested :
    (p : Point) (w : Worker)
    → Yields (λ v. v.termination_requested ≡ w.termination_requested) (joined_at p w)
unfolding joined_at
joined_at-requested no_thread w = tt
joined_at-requested at_start w = tt
joined_at-requested at_startup w = tt
joined_at-requested at_loop w = tt
joined_at-requested at_shutdown w = tt
joined_at-requested at_end w = refl
joined_at-requested was_joined w = tt

pub terminate-IsAlive : (w : Worker) → IsAlive w → IsAlive (terminate w)
unfolding acting
terminate-IsAlive w v = acting-IsAlive true w v

pub run-IsAlive : (w : Worker) → IsAlive w → Yields IsAlive (run (λ v. v) w)
unfolding run acting
run-IsAlive w v = run_at-IsAlive w.point false w refl v

pub run-requested :
    (w : Worker) → Yields (λ v. v.termination_requested ≡ w.termination_requested) (run (λ v. v) w)
unfolding run
run-requested w = run_at-requested w.point w

pub join-IsAlive : (w : Worker) → IsAlive w → Yields IsAlive (join w)
unfolding join
join-IsAlive w v = joined_at-IsAlive w.point w refl v

pub join-requested :
    (w : Worker) → Yields (λ v. v.termination_requested ≡ w.termination_requested) (join w)
unfolding join
join-requested w = joined_at-requested w.point w

pub startup-requested :
    (w : Worker)
    → w.termination_requested ≡ false
    → Yields (λ v. v.termination_requested ≡ false) (worker_startup w)
unfolding worker_startup
startup-requested w h = elim (Bool-cases (is_idle w.thread_state)) [
  | inl e ↦ rw e h
  | inr e ↦ rw e tt
]

pub run-leaves :
    (w : Worker)
    → w.point ≡ at_loop
    → w.termination_requested ≡ true
    → (v : Worker) × (run (λ u. u) w ≡ ok v) × (v.point ≡ at_shutdown)
unfolding run run_at
run-leaves w p r =
    (record (enter_thread_state shutdown w) { point = at_shutdown }, rw (p, r) refl, refl)

pub run-ends :
    (w : Worker)
    → w.point ≡ at_shutdown
    → (v : Worker) × (run (λ u. u) w ≡ ok v) × (v.point ≡ at_end)
unfolding run run_at
run-ends w p = (
  record (enter_thread_state terminated (unregister_thread w)) { point = at_end },
  rw p refl,
  refl,
)
