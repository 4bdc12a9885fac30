-- ===== src/Timer/Kept.antt =====
-- The list of timers: each timer is in it once, and a change wakes the thread.
use libremo.Prelude.{
  ℕ, ◌≡◌, refl, sym, ◌∙◌, subst, false, List, [], ◌∷◌, if◌then◌else◌, Bool-cases, inl, inr, Option,
  none, some, has, without, Distinct, Distinct-snoc, Distinct-without, has-without, ◌&&◌,
}
use libremo.Error.{Result, ok, Yields}
use libremo.Timer.{
  TimerThread, Call, constructs, resets, adds, removes, requests_end, wakes, call, calls, Wait,
  reset, reset_all, add, remove, new_timer, choose, move_to_back, still_good, fire, waited, round,
  round_of, get_trigger_time, action,
}
use libremo.Timer.Choice.{reset_all-timers, choose-timers}

add-Distinct : (t : ℕ) (s : TimerThread) → Distinct s.timers → Distinct (add t s).timers
unfolding add
add-Distinct t s d = elim (Bool-cases (has t s.timers)) [
  | inl e ↦ rw e d
  | inr e ↦ rw e (Distinct-snoc t s.timers e d)
]

remove-Distinct : (t : ℕ) (s : TimerThread) → Distinct s.timers → Distinct (remove t s).timers
unfolding remove
remove-Distinct t s d = elim (Bool-cases (has t s.timers)) [
  | inl e ↦ rw e (Distinct-without t s.timers d)
  | inr e ↦ rw e d
]

call-Distinct : (c : Call) (s : TimerThread) → Distinct s.timers → Distinct (call c s).timers
unfolding call new_timer reset
call-Distinct (constructs interval t) s d = d
call-Distinct (resets now t) s d = d
call-Distinct (adds t) s d = add-Distinct t s d
call-Distinct (removes t) s d = remove-Distinct t s d
call-Distinct requests_end s d = d
call-Distinct wakes s d = d

pub calls-Distinct :
    (cs : List Call) (s : TimerThread) → Distinct s.timers → Distinct (calls cs s).timers
unfolding calls
calls-Distinct [] s d = d
calls-Distinct (c ∷ cs) s d = calls-Distinct cs (call c s) (call-Distinct c s d)

fire-timers :
    (t : ℕ) (w : Wait) (s : TimerThread)
    → (reset_all w.behind (reset w.now t (reset_all w.late s))).timers ≡ s.timers
unfolding reset
fire-timers t w s =
    reset_all-timers w.behind (reset w.now t (reset_all w.late s)) ∙ reset_all-timers w.late s

waited-Distinct :
    (t time : ℕ) (w : Wait) (s : TimerThread)
    → Distinct s.timers
    → Distinct (waited t time w s).timers
unfolding waited fire reset
waited-Distinct t time w s d = elim (Bool-cases (w.timed_out && still_good t time s)) [
  | inl e ↦
      subst (λ b. Distinct (if b then fire t w s else s).timers) (sym e)
        (calls-Distinct w.callback _ (subst Distinct (sym (fire-timers t w s)) d))
  | inr e ↦ subst (λ b. Distinct (if b then fire t w s else s).timers) (sym e) d
]

round_of-Distinct :
    (o : Option ℕ) (w : Wait) (s : TimerThread)
    → Distinct s.timers
    → Distinct (round_of o w s).timers
unfolding round_of move_to_back
round_of-Distinct none w s d = calls-Distinct w.meanwhile s d
round_of-Distinct (some t) w s d =
    let s1 : TimerThread = reset_all w.before (move_to_back t s) in
    let d1 : Distinct s1.timers =
      subst Distinct (sym (reset_all-timers w.before (move_to_back t s))) (
        Distinct-snoc t (without t s.timers) (has-without t s.timers d)
          (Distinct-without t s.timers d)) in
    waited-Distinct t (get_trigger_time t s1) w (calls w.meanwhile s1)
      (calls-Distinct w.meanwhile s1 d1)

round-Distinct : (w : Wait) (s : TimerThread) → Distinct s.timers → Distinct (round w s).timers
unfolding round
round-Distinct w s d =
    round_of-Distinct (choose w.choosing s).0 w (choose w.choosing s).1
      (subst Distinct (sym (choose-timers w.choosing s)) d)

-- When the thread comes back from its loop, each timer is in the list at most once, as it was
-- before, and the cancel signal is reset, whatever other threads do meanwhile.
pub action-Distinct :
    (ws : List Wait) (s : TimerThread)
    → Distinct s.timers
    → Yields (λ s'. Distinct s'.timers × (s'.cancel ≡ false)) (action ws s)
unfolding action round
action-Distinct [] s d = elim (Bool-cases s.cancel) [ inl e ↦ rw e (d, refl) | inr e ↦ rw e tt ]
action-Distinct (w ∷ ws) s d =
    let rest : Result TimerThread = action ws (round w s) in
    elim (Bool-cases s.cancel) [
      | inl e ↦ rw e (d, refl)
      | inr e ↦
          subst
            (λ b.
              Yields (λ s'. Distinct s'.timers × (s'.cancel ≡ false))
                (if b then ok (record s { cancel = false }) else rest))
            (sym e) (action-Distinct ws (round w s) (round-Distinct w s d))
    ]
