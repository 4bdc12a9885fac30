-- ===== src/Timer/Fires.antt =====
-- Which timers fire.
use libremo.Prelude.{
  ℕ, ◌+◌, ◌≡◌, ◌⊎◌, refl, sym, ap, ◌∙◌, subst, Bool, true, false, ◌&&◌, List, [], ◌∷◌, ◌++◌, ◌==◌,
  if◌then◌else◌, Bool-cases, Option-cases, inl, inr, Option, none, some, has, has-last, last_of,
  last_of-snoc, without, ==_refl, ==_iff, arith,
}
use libremo.Timer.{
  TimerThread, Call, constructs, resets, adds, removes, requests_end, wakes, call, calls, Wait,
  reset, reset_all, add, remove, new_timer, get_trigger_time, get_next_timer, choose, move_to_back,
  still_good, same_timer, fire, waited, round, round_of, round_with,
}
use libremo.Timer.Choice.{
  IsSoonest, reads, reads-has, Chooses, soonest, choose-Chooses, choose-fired, choose-eq,
  reset_all-fired,
}

add-fired : (t : ℕ) (s : TimerThread) → (add t s).fired ≡ s.fired
unfolding add
add-fired t s = elim (Bool-cases (has t s.timers)) [ inl e ↦ rw e refl | inr e ↦ rw e refl ]

remove-fired : (t : ℕ) (s : TimerThread) → (remove t s).fired ≡ s.fired
unfolding remove
remove-fired t s = elim (Bool-cases (has t s.timers)) [ inl e ↦ rw e refl | inr e ↦ rw e refl ]

call-fired : (c : Call) (s : TimerThread) → (call c s).fired ≡ s.fired
unfolding call new_timer reset
call-fired (constructs interval t) s = refl
call-fired (resets now t) s = refl
call-fired (adds t) s = add-fired t s
call-fired (removes t) s = remove-fired t s
call-fired requests_end s = refl
call-fired wakes s = refl

calls-fired : (cs : List Call) (s : TimerThread) → (calls cs s).fired ≡ s.fired
unfolding calls
calls-fired [] s = refl
calls-fired (c ∷ cs) s = calls-fired cs (call c s) ∙ call-fired c s

fire-fired : (t : ℕ) (w : Wait) (s : TimerThread) → (fire t w s).fired ≡ s.fired ++ (t, w.now) ∷ []
unfolding fire reset
fire-fired t w s =
    calls-fired w.callback _
    ∙ ap (λ l. l ++ (t, w.now) ∷ [])
        (reset_all-fired w.behind (reset w.now t (reset_all w.late s)) ∙ reset_all-fired w.late s)

-- The state in front of the wait for a timer, in which its trigger time is read, and the state of the check
-- behind the wait.
abbrev pub Before : ℕ → Wait → TimerThread → TimerThread
Before t w s = reset_all w.before (move_to_back t (choose w.choosing s).1)

abbrev pub Meanwhile : ℕ → Wait → TimerThread → TimerThread
Meanwhile t w s = calls w.meanwhile (Before t w s)

-- The timer was in the list and had the soonest trigger time that was read in the search, the wait for it
-- timed out, and at the check it is in the list with the trigger time that was waited for.
pub record IsDue (t : ℕ) (w : Wait) (s : TimerThread) : Type 0 where
  pub next : IsSoonest t (reads w.choosing s)
  pub among : has t s.timers ≡ true
  pub elapsed : w.timed_out ≡ true
  pub kept : has t (Meanwhile t w s).timers ≡ true
  pub in_time : get_trigger_time t (Meanwhile t w s) ≡ get_trigger_time t (Before t w s)

both : (a b : Bool) → (a && b) ≡ true → (a ≡ true) × (b ≡ true)
both true true e = (refl, refl)
both true false e = absurd (ground arith)
both false b e = absurd (ground arith)

still_good-cases :
    (t time : ℕ) (s : TimerThread)
    → still_good t time s ≡ true
    → (has t s.timers ≡ true) × (get_trigger_time t s ≡ time)
unfolding still_good
still_good-cases t time s e =
    let (same, at) = both (same_timer (last_of s.timers) t) (get_trigger_time t s == time) e in
    (
      elim (Option-cases (last_of s.timers)) [
        | inl k ↦
            let f : false ≡ true = subst (λ o. same_timer o t ≡ true) k same in
            absurd (ground arith)
        | inr (u, k) ↦
            let f : (t == u) ≡ true = subst (λ o. same_timer o t ≡ true) k same in
            has-last t s.timers (k ∙ ap some (sym ((==_iff t u).0 f)))
      ],
      (==_iff (get_trigger_time t s) time).0 at,
    )

waited-cases :
    (t time : ℕ) (w : Wait) (s : TimerThread)
    → ((waited t time w s).fired ≡ s.fired)
      ⊎ (((waited t time w s).fired ≡ s.fired ++ (t, w.now) ∷ [])
          × (w.timed_out ≡ true)
          × (has t s.timers ≡ true)
          × (get_trigger_time t s ≡ time))
unfolding waited
waited-cases t time w s = elim (Bool-cases (w.timed_out && still_good t time s)) [
  | inl e ↦
      let (elapsed, good) = both w.timed_out (still_good t time s) e in
      let (kept, in_time) = still_good-cases t time s good in
      inr
        (ap (λ b. (if b then fire t w s else s).fired) e ∙ fire-fired t w s, elapsed, kept, in_time)
  | inr e ↦ inl (ap (λ b. (if b then fire t w s else s).fired) e)
]

-- The time of the wait for a timer that fired in the round, next to the others.
Fired : Option ℕ → Wait → TimerThread → TimerThread → Type 0
Fired o w s s1 =
    ((round_of o w s1).fired ≡ s.fired)
    ⊎ ((t : ℕ) × IsDue t w s × ((round_of o w s1).fired ≡ s.fired ++ (t, w.now) ∷ []))

round_of-cases :
    (o : Option ℕ) (w : Wait) (s : TimerThread)
    → Chooses (reads w.choosing s) o
    → Fired o w s (choose w.choosing s).1
unfolding round_of move_to_back Fired
round_of-cases none w s v = inl (calls-fired w.meanwhile _ ∙ choose-fired w.choosing s)
round_of-cases (some t) w s (soonest _ least) =
    let same : (Meanwhile t w s).fired ≡ s.fired =
      calls-fired w.meanwhile (Before t w s)
      ∙ reset_all-fired w.before (move_to_back t (choose w.choosing s).1)
      ∙ choose-fired w.choosing s in
    elim (waited-cases t (get_trigger_time t (Before t w s)) w (Meanwhile t w s)) [
      | inl e ↦ inl (e ∙ same)
      | inr (e, elapsed, kept, in_time) ↦ inr (
        t,
        record {
          next = least;
          among = reads-has t w.choosing s least;
          elapsed = elapsed;
          kept = kept;
          in_time = in_time;
        },
        e ∙ ap (λ l. l ++ (t, w.now) ∷ []) same,
      )
    ]

-- A round fires no timer, or the one that the thread waited for: it was in the list, and of all
-- trigger times that the search for the next timer read, the one it read for this timer is the
-- soonest; the wait for it has timed out; and at the check behind the wait it is still in the
-- list with the trigger time that was waited for. This holds whatever other threads call while
-- the thread waits, and whichever timers they reset at any other point of the round.
pub round-cases :
    (w : Wait) (s : TimerThread)
    → ((round w s).fired ≡ s.fired)
      ⊎ ((t : ℕ) × IsDue t w s × ((round w s).fired ≡ s.fired ++ (t, w.now) ∷ []))
unfolding round Fired
round-cases w s = round_of-cases (choose w.choosing s).0 w s (choose-Chooses w.choosing s)

-- A round in which the wait times out and nobody calls anything.
abbrev pub quiet : ℕ → Wait
quiet now = record {
  choosing = [];
  before = [];
  meanwhile = [];
  timed_out = true;
  late = [];
  now = now;
  behind = [];
  callback = [];
}

-- The state behind a timer that fired.
abbrev pub fired_state : ℕ → ℕ → TimerThread → TimerThread
fired_state t now s = record (reset now t s) {
  timers = without t s.timers ++ t ∷ [];
  fired = s.fired ++ (t, now) ∷ [];
}

still_good-kept :
    (t : ℕ) (s : TimerThread) → still_good t (get_trigger_time t s) (move_to_back t s) ≡ true
unfolding still_good move_to_back
still_good-kept t s =
    rw (last_of-snoc t (without t s.timers), ==_refl t, ==_refl (get_trigger_time t s)) refl

waited-fires :
    (t now : ℕ) (s : TimerThread)
    → waited t (get_trigger_time t s) (quiet now) (move_to_back t s) ≡ fired_state t now s
unfolding waited fire calls reset reset_all move_to_back
waited-fires t now s =
    ap (λ b. if b then fire t (quiet now) (move_to_back t s) else move_to_back t s)
      (still_good-kept t s)

-- When the wait for the next timer times out, and neither other threads nor the callback call
-- anything in the round, the timer fires, stands at the end of the list, and is to fire again
-- after its interval.
pub round-fires :
    (t now : ℕ) (s : TimerThread)
    → get_next_timer s ≡ some t
    → ((round (quiet now) s).fired ≡ s.fired ++ (t, now) ∷ [])
      × (last_of (round (quiet now) s).timers ≡ some t)
      × (get_trigger_time t (round (quiet now) s) ≡ now + (s.timer t).interval)
unfolding round round_of calls reset reset_all
round-fires t now s e =
    let run : round (quiet now) s ≡ fired_state t now s =
      ap (round_with (quiet now)) (choose-eq s)
      ∙ ap (λ o. round_of o (quiet now) s) e
      ∙ waited-fires t now s in
    (
      ap (λ u. u.fired) run,
      ap (λ u. last_of u.timers) run ∙ last_of-snoc t (without t s.timers),
      ap (get_trigger_time t) run ∙ rw (get_trigger_time, ==_refl t) refl,
    )
