-- ===== src/Examples/Threads.antt =====
-- Workers and active objects at concrete inputs.
use libremo.Prelude.{
  ◌+◌, ◌++◌, ◌⊎◌, ◌==◌, if◌then◌else◌, last_of, Distinct, ℕ, ◌≡◌, refl, true, false, List, [], ◌∷◌,
  Option, none, some, replicate,
}
use libremo.Async.{fire_and_forget}
use libremo.Async.Pending.{fire_and_forget_lem}
use libremo.Timer.{
  TimerThread, Wait, resets, adds, removes, get_next_timer, next_of, next_loop, get_trigger_time,
  round, action,
}
use libremo.Timer.Next.{Waits, get_next_timer-Waits}
use libremo.Timer.Fires.{IsDue, quiet, round-cases, round-fires}
use libremo.Timer.Kept.{action-Distinct}
use libremo.Error.{ok, ◌>>=◌, Yields}
use libremo.Worker.{new_worker, at_loop, at_end}
use libremo.Worker.Lifecycle.{starts, shuts_down, joins, runs, happen, InOrder, happen-InOrder}
use libremo.Active.{ActiveObject, new_active}
use libremo.Active.Order.{
  enqueues, shuts_down as shuts, runs_on, take_place, InSequence, take_place-InSequence,
}
use libremo.Active.Drain.{take_place-drains}

abbrev no_workers : ℕ → Option ℕ
no_workers thread = none

happen-InOrder_example : Yields InOrder (
    happen
      (starts
        ∷ runs false
        ∷ runs false
        ∷ runs true
        ∷ shuts_down
        ∷ runs false
        ∷ runs false
        ∷ joins
        ∷ [])
      (new_worker 4 2 no_workers))
happen-InOrder_example =
    happen-InOrder
      (starts
        ∷ runs false
        ∷ runs false
        ∷ runs true
        ∷ shuts_down
        ∷ runs false
        ∷ runs false
        ∷ joins
        ∷ [])
      4 2 no_workers refl

take_place-InSequence_example : Yields InSequence (
    new_active (new_worker 4 2 no_workers)
    >>= take_place (
        enqueues 7
        ∷ runs_on
        ∷ runs_on
        ∷ enqueues 8
        ∷ runs_on
        ∷ shuts
        ∷ enqueues 9
        ∷ runs_on
        ∷ runs_on
        ∷ runs_on
        ∷ []))
take_place-InSequence_example =
    take_place-InSequence
      (enqueues 7
        ∷ runs_on
        ∷ runs_on
        ∷ enqueues 8
        ∷ runs_on
        ∷ shuts
        ∷ enqueues 9
        ∷ runs_on
        ∷ runs_on
        ∷ runs_on
        ∷ [])
      4 2 no_workers refl

-- An object with two calls in front of the shutdown and one behind it.
abbrev shut : ActiveObject
shut = record {
  worker = record (new_worker 4 2 no_workers) { point = at_loop };
  queue = some 7 ∷ some 8 ∷ none ∷ some 9 ∷ [];
  puts = some 7 ∷ some 8 ∷ none ∷ some 9 ∷ [];
  done = [];
}

take_place-drains_example :
    (a : ActiveObject) × (take_place (replicate 5 runs_on) shut ≡ ok a)
    × (a.worker.point ≡ at_end)
    × (a.done ≡ 7 ∷ 8 ∷ [])
take_place-drains_example = take_place-drains (7 ∷ 8 ∷ []) (some 9 ∷ []) shut refl refl refl

-- Two timers, of which the second is to fire first.
abbrev two_timers : TimerThread
two_timers = record {
  timers = 1 ∷ 2 ∷ [];
  timer = λ t.
      if t == 1
      then record { interval = 50; trigger_time = 90 }
      else record { interval = 30; trigger_time = 70 };
  cancel = false;
  terminates = false;
  fired = [];
}

-- Timer 2 is reset between the search and the wait, and timer 1 behind the check.
abbrev disturbed : Wait
disturbed = record (quiet 71) {
  choosing = [] ∷ ((1, 30) ∷ []) ∷ [];
  before = (2, 35) ∷ [];
  late = (1, 70) ∷ [];
}

get_next_timer-Waits_example : Waits two_timers (get_next_timer two_timers)
get_next_timer-Waits_example = get_next_timer-Waits two_timers

round-cases_example :
    ((round disturbed two_timers).fired ≡ two_timers.fired)
    ⊎ ((t : ℕ) × IsDue t disturbed two_timers
        × ((round disturbed two_timers).fired ≡ two_timers.fired ++ (t, 71) ∷ []))
round-cases_example = round-cases disturbed two_timers

round-fires_example :
    ((round (quiet 71) two_timers).fired ≡ (2, 71) ∷ [])
    × (last_of (round (quiet 71) two_timers).timers ≡ some 2)
    × (get_trigger_time 2 (round (quiet 71) two_timers) ≡ 71 + 30)
unfolding get_next_timer next_of next_loop
round-fires_example = round-fires 2 71 two_timers refl

-- A restart, whose two steps stand around the end of a wait, and a removal.
abbrev with_calls : List Wait
with_calls =
    record (quiet 71) { meanwhile = resets 60 3 ∷ [] }
    ∷ record disturbed { meanwhile = adds 3 ∷ removes 1 ∷ [] }
    ∷ []

action-Distinct_example :
    Yields (λ s. Distinct s.timers × (s.cancel ≡ false)) (action with_calls two_timers)
action-Distinct_example = action-Distinct with_calls two_timers (refl, (refl, tt))

fire_and_forget_lem_example : fire_and_forget (λ f. f == 2) 4 (1 ∷ 2 ∷ 3 ∷ []) ≡ ok (1 ∷ 3 ∷ 4 ∷ [])
fire_and_forget_lem_example = fire_and_forget_lem (λ f. f == 2) 4 (1 ∷ 2 ∷ 3 ∷ [])
