-- ===== src/Timer.antt =====
-- src/utils/timer.h and timer.cpp: timers, and the thread that fires them.
pub mod Next
pub mod Choice
pub mod Fires
pub mod Kept
use libremo.Prelude.{
  ℕ, ◌+◌, Bool, true, false, not, ◌&&◌, List, [], ◌∷◌, ◌++◌, ◌==◌, ltb, if◌then◌else◌, Option, none,
  some, has, without, last_of,
}
use libremo.Error.{Result, ok, error, fault, timeout}

-- Points in time and durations are ticks of the clock.
pub record Timer : Type 0 where
  pub interval : ℕ
  pub trigger_time : ℕ

-- `timers` are the addresses in the list `m_timers`, in its order; `timer` has the timers by their addresses,
-- and `fired` the timers whose callbacks were invoked with the time of that, in order.
pub record TimerThread : Type 0 where
  pub timers : List ℕ
  pub timer : ℕ → Timer
  pub cancel : Bool
  pub terminates : Bool
  pub fired : List (ℕ × ℕ)

abbrev pub new_timer_thread : (ℕ → Timer) → TimerThread
new_timer_thread timer = record {
  timers = [];
  timer = timer;
  cancel = false;
  terminates = false;
  fired = [];
}

-- Timer::reset
unfoldable pub reset : ℕ → ℕ → TimerThread → TimerThread
reset now t s = record s {
  timer = λ u.
      if u == t
      then record (s.timer u) { trigger_time = now + (s.timer u).interval }
      else s.timer u;
}

abbrev pub get_trigger_time : ℕ → TimerThread → ℕ
get_trigger_time t s = (s.timer t).trigger_time

-- TimerThread::add
unfoldable pub add : ℕ → TimerThread → TimerThread
add t s = if has t s.timers then s else record s { timers = s.timers ++ t ∷ []; cancel = true }

-- TimerThread::remove
unfoldable pub remove : ℕ → TimerThread → TimerThread
remove t s = if has t s.timers then record s { timers = without t s.timers; cancel = true } else s

-- Timer::Timer, up to its restart
unfoldable pub new_timer : ℕ → ℕ → TimerThread → TimerThread
new_timer interval t s = record s {
  timer = λ u. if u == t then record { interval = interval; trigger_time = 0 } else s.timer u;
}

-- What other threads and callbacks do. Each of these steps is made under a lock of its own, or none; those
-- of `resets` take the lock of the timer only.
pub data Call : Type 0 where
  constructs : ℕ → ℕ → Call
  resets : ℕ → ℕ → Call
  adds : ℕ → Call
  removes : ℕ → Call
  requests_end : Call
  wakes : Call

-- Timer::restart: two steps, between which there may be others.
abbrev pub restart : ℕ → ℕ → List Call
restart now t = resets now t ∷ adds t ∷ []

-- TimerThread::shutdown
abbrev pub shutdown_timers : List Call
shutdown_timers = requests_end ∷ wakes ∷ []

unfoldable pub call : Call → TimerThread → TimerThread
unfolding new_timer reset add remove
call (constructs interval t) s = new_timer interval t s
call (resets now t) s = reset now t s
call (adds t) s = add t s
call (removes t) s = remove t s
call requests_end s = record s { terminates = true }
call wakes s = record s { cancel = true }

unfoldable pub calls : List Call → TimerThread → TimerThread
unfolding call
calls [] s = s
calls (c ∷ cs) s = calls cs (call c s)

-- Calls of Timer::reset while the thread holds its own lock: a timer and the time then.
abbrev pub Resets : Type 0
Resets = List (ℕ × ℕ)

unfoldable pub reset_all : Resets → TimerThread → TimerThread
unfolding reset
reset_all [] s = s
reset_all ((t, now) ∷ rs) s = reset_all rs (reset now t s)

-- The loop of `get_next_timer`, from an item of the list on, while no timer is reset.
unfoldable pub next_loop : List ℕ → ℕ → ℕ → TimerThread → ℕ
next_loop [] timer trigger_time s = timer
next_loop (t ∷ ts) timer trigger_time s =
    let later = next_loop ts timer trigger_time s in
    let sooner = next_loop ts t (get_trigger_time t s) s in
    if ltb (get_trigger_time t s) trigger_time then sooner else later

unfoldable pub next_of : List ℕ → TimerThread → Option ℕ
unfolding next_loop
next_of [] s = none
next_of (t ∷ ts) s = some (next_loop (t ∷ ts) t (get_trigger_time t s) s)

unfoldable pub get_next_timer : TimerThread → Option ℕ
unfolding next_of
get_next_timer s = next_of s.timers s

abbrev pub head_of : List Resets → Resets
head_of [] = []
head_of (r ∷ rs) = r

abbrev pub tail_of : List Resets → List Resets
tail_of [] = []
tail_of (r ∷ rs) = rs

-- The same loop, with the resets before each of its reads.
unfoldable pub choose_loop : List ℕ → ℕ → ℕ → List Resets → TimerThread → ℕ × TimerThread
unfolding reset_all
choose_loop [] timer trigger_time rs s = (timer, s)
choose_loop (t ∷ ts) timer trigger_time rs s =
    let s1 = reset_all (head_of rs) s in
    let sooner = ltb (get_trigger_time t s1) trigger_time in
    choose_loop ts (if sooner then t else timer)
      (if sooner then get_trigger_time t s1 else trigger_time) (tail_of rs) s1

abbrev pub chosen : ℕ × TimerThread → Option ℕ × TimerThread
chosen (t, s) = (some t, s)

unfoldable pub choose_of : List ℕ → List Resets → TimerThread → Option ℕ × TimerThread
unfolding choose_loop
choose_of [] rs s = (none, s)
choose_of (t ∷ ts) rs s =
    let s1 = reset_all (head_of rs) s in
    chosen (choose_loop (t ∷ ts) t (get_trigger_time t s1) (tail_of rs) s1)

-- get_next_timer, with the resets before each read of a trigger time; what it leaves of the timers.
unfoldable pub choose : List Resets → TimerThread → Option ℕ × TimerThread
unfolding choose_of
choose rs s = choose_of s.timers rs s

unfoldable pub move_to_back : ℕ → TimerThread → TimerThread
move_to_back t s = record s { timers = without t s.timers ++ t ∷ [] }

-- One wait on the condition variable, with what others do in the round: the resets in the search for the next
-- timer and before the trigger time is read, all calls from there to the check behind the wait, where
-- the lock is released, the resets behind the check and behind the thread's own reset, and what
-- the callback calls. Also, whether the wait timed out, and the time of the thread's reset.
pub record Wait : Type 0 where
  pub choosing : List Resets
  pub before : Resets
  pub meanwhile : List Call
  pub timed_out : Bool
  pub late : Resets
  pub now : ℕ
  pub behind : Resets
  pub callback : List Call

abbrev pub same_timer : Option ℕ → ℕ → Bool
same_timer none t = false
same_timer (some u) t = t == u

-- The timer was neither removed nor reset while the thread waited.
unfoldable pub still_good : ℕ → ℕ → TimerThread → Bool
still_good t trigger_time s =
    same_timer (last_of s.timers) t && (get_trigger_time t s == trigger_time)

-- Timer::reset and Timer::notify
unfoldable pub fire : ℕ → Wait → TimerThread → TimerThread
unfolding calls
fire t w s =
    let s1 = reset_all w.behind (reset w.now t (reset_all w.late s)) in
    calls w.callback (record s1 { fired = s1.fired ++ (t, w.now) ∷ [] })

-- Behind the wait for a timer.
unfoldable pub waited : ℕ → ℕ → Wait → TimerThread → TimerThread
unfolding fire still_good
waited t trigger_time w s = if w.timed_out && still_good t trigger_time s then fire t w s else s

unfoldable pub round_of : Option ℕ → Wait → TimerThread → TimerThread
unfolding waited calls move_to_back
round_of none w s = calls w.meanwhile s
round_of (some t) w s =
    let s1 = reset_all w.before (move_to_back t s) in
    waited t (get_trigger_time t s1) w (calls w.meanwhile s1)

abbrev pub round_with : Wait → Option ℕ × TimerThread → TimerThread
round_with w (o, s) = round_of o w s

-- One round of the loop in `action`.
unfoldable pub round : Wait → TimerThread → TimerThread
unfolding choose round_of
round w s = round_with w (choose w.choosing s)

-- TimerThread::action; without a wait left the thread is still waiting.
unfoldable pub action : List Wait → TimerThread → Result TimerThread
unfolding round
action [] s = if s.cancel then ok (record s { cancel = false }) else timeout
action (w ∷ ws) s =
    let rest = action ws (round w s) in if s.cancel then ok (record s { cancel = false }) else rest
