-- ===== src/Active/Drain.antt =====
-- The thread of an active object that was shut down comes to its end.
use libremo.Prelude.{
  ℕ, suc, ◌+◌, ◌≡◌, refl, sym, ap, ◌∙◌, true, false, not, List, [], ◌∷◌, ◌++◌, map, append_assoc,
  append-nil, Option, none, some, ◌&&◌, if◌then◌else◌, length, replicate, arith,
}
use libremo.Error.{ok, ◌>>=◌}
use libremo.Worker.{Worker, at_loop, at_shutdown, at_end, run}
use libremo.Worker.Requests.{run-leaves, run-ends}
use libremo.Active.{ActiveObject, get_item, carry_out, action, run_active, is_loop}
use libremo.Active.Order.{runs_on, takes_place, take_place}

run_active-action :
    (item : Option ℕ) (rest : List (Option ℕ)) (a : ActiveObject)
    → a.worker.point ≡ at_loop
    → a.worker.termination_requested ≡ false
    → a.queue ≡ item ∷ rest
    → run_active a ≡ ok (carry_out item (record a { queue = rest }))
unfolding run_active action is_loop get_item
run_active-action item rest a p r q = rw (p, r, q) refl

-- The thread goes on without an action.
run_active-thread :
    (a : ActiveObject) (w : Worker)
    → (is_loop a.worker.point && not a.worker.termination_requested) ≡ false
    → run (λ v. v) a.worker ≡ ok w
    → run_active a ≡ ok (record a { worker = w })
unfolding run_active
run_active-thread a w g e =
    ap (λ b. if b then action a else (run (λ v. v) a.worker >>= λ v. ok (record a { worker = v })))
      g
    ∙ ap (λ m. m >>= λ v. ok (record a { worker = v })) e

run_active-leaves :
    (a : ActiveObject)
    → a.worker.point ≡ at_loop
    → a.worker.termination_requested ≡ true
    → (w : Worker) × (run_active a ≡ ok (record a { worker = w })) × (w.point ≡ at_shutdown)
unfolding is_loop
run_active-leaves a p r =
    let (w, e, at) = run-leaves a.worker p r in
    let g : (is_loop a.worker.point && not a.worker.termination_requested) ≡ false =
      ap (λ q. is_loop q && not a.worker.termination_requested) p ∙ ap not r in
    (w, run_active-thread a w g e, at)

run_active-ends :
    (a : ActiveObject)
    → a.worker.point ≡ at_shutdown
    → (w : Worker) × (run_active a ≡ ok (record a { worker = w })) × (w.point ≡ at_end)
unfolding is_loop
run_active-ends a p =
    let (w, e, at) = run-ends a.worker p in
    (w, run_active-thread a w (ap (λ q. is_loop q && not a.worker.termination_requested) p) e, at)

take_place-next :
    (a a' : ActiveObject) (n : ℕ)
    → run_active a ≡ ok a'
    → take_place (replicate (suc n) runs_on) a ≡ take_place (replicate n runs_on) a'
unfolding take_place takes_place
take_place-next a a' n e = rw e refl

-- When the queue of an active object in its loop, whose end was not requested yet, holds some
-- calls and then a shutdown, the thread carries them out in order and comes to its end, in three
-- parts more than there are calls.
pub take_place-drains :
    (calls : List ℕ) (rest : List (Option ℕ)) (a : ActiveObject)
    → a.worker.point ≡ at_loop
    → a.worker.termination_requested ≡ false
    → a.queue ≡ map some calls ++ none ∷ rest
    → (a' : ActiveObject) × (take_place (replicate (length calls + 3) runs_on) a ≡ ok a')
      × (a'.worker.point ≡ at_end)
      × (a'.done ≡ a.done ++ calls)
unfolding take_place carry_out
take_place-drains [] rest a p r q =
    let e1 = run_active-action none rest a p r q in
    let a1 : ActiveObject = carry_out none (record a { queue = rest }) in
    let (w2, e2, p2) = run_active-leaves a1 p refl in
    let (w3, e3, p3) = run_active-ends (record a1 { worker = w2 }) p2 in
    (
      record a1 { worker = w3 },
      take_place-next a a1 2 e1
          ∙ take_place-next a1 (record a1 { worker = w2 }) 1 e2
          ∙ take_place-next (record a1 { worker = w2 }) (record a1 { worker = w3 }) 0 e3,
      p3,
      sym (append-nil a.done),
    )
take_place-drains (call ∷ calls) rest a p r q =
    let e1 = run_active-action (some call) (map some calls ++ none ∷ rest) a p r q in
    let a1 : ActiveObject =
      carry_out (some call) (record a { queue = map some calls ++ none ∷ rest }) in
    let shift : suc (length calls) + 3 ≡ suc (length calls + 3) = omega arith in
    let (a', run_on, at, done) = take_place-drains calls rest a1 p r refl in
    (
      a',
      ap (λ n. take_place (replicate n runs_on) a) shift
          ∙ take_place-next a a1 (length calls + 3) e1
          ∙ run_on,
      at,
      done ∙ append_assoc a.done (call ∷ []) calls,
    )
