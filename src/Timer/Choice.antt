-- ===== src/Timer/Choice.antt =====
-- The search for the next timer while others reset timers.
use libremo.Prelude.{
  ℕ, ◌≤◌, ◌≡◌, ◌⊎◌, refl, sym, ap, ◌∙◌, subst, Bool, true, List, [], ◌∷◌, ltb, if◌then◌else◌, All,
  arith, Bool-cases, inl, inr, Option, none, some, has, ltb→lt,
}
use libremo.Timer.{
  TimerThread, Resets, reset, reset_all, get_trigger_time, next_loop, next_of, get_next_timer,
  head_of, tail_of, choose_loop, choose_of, choose, chosen,
}
use libremo.Timer.Next.{no_sooner, has-either}

-- Resets leave all but the trigger times as it was.
pub reset_all-timers : (rs : Resets) (s : TimerThread) → (reset_all rs s).timers ≡ s.timers
unfolding reset_all reset
reset_all-timers [] s = refl
reset_all-timers ((t, now) ∷ rs) s = reset_all-timers rs (reset now t s)

pub reset_all-fired : (rs : Resets) (s : TimerThread) → (reset_all rs s).fired ≡ s.fired
unfolding reset_all reset
reset_all-fired [] s = refl
reset_all-fired ((t, now) ∷ rs) s = reset_all-fired rs (reset now t s)

-- What the loop reads: the timers with their trigger times then.
abbrev pub reads_loop : List ℕ → List Resets → TimerThread → List (ℕ × ℕ)
reads_loop [] rs s = []
reads_loop (t ∷ ts) rs s =
    let s1 = reset_all (head_of rs) s in (t, get_trigger_time t s1) ∷ reads_loop ts (tail_of rs) s1

abbrev pub reads_of : List ℕ → List Resets → TimerThread → List (ℕ × ℕ)
reads_of [] rs s = []
reads_of (t ∷ ts) rs s =
    let s1 = reset_all (head_of rs) s in
    (t, get_trigger_time t s1) ∷ reads_loop (t ∷ ts) (tail_of rs) s1

-- All that the search reads.
abbrev pub reads : List Resets → TimerThread → List (ℕ × ℕ)
reads rs s = reads_of s.timers rs s

-- This pair is one of them.
abbrev pub Among : ℕ → ℕ → List (ℕ × ℕ) → Type 0
Among t time [] = ⊥
Among t time ((u, at) ∷ rest) = ((t ≡ u) × (time ≡ at)) ⊎ Among t time rest

-- A time was read for the timer, and no sooner one for any.
abbrev pub IsSoonest : ℕ → List (ℕ × ℕ) → Type 0
IsSoonest t read = (time : ℕ) × Among t time read × All (λ r. time ≤ r.1) read

choose_loop-IsSoonest :
    (ts : List ℕ) (timer time : ℕ) (rs : List Resets) (s : TimerThread)
    → IsSoonest (choose_loop ts timer time rs s).0 ((timer, time) ∷ reads_loop ts rs s)
unfolding choose_loop
choose_loop-IsSoonest [] timer time rs s = (time, inl (refl, refl), (omega arith, tt))
choose_loop-IsSoonest (t ∷ ts) timer time rs s =
    let s1 = reset_all (head_of rs) s in
    let at = get_trigger_time t s1 in
    let read = (timer, time) ∷ (t, at) ∷ reads_loop ts (tail_of rs) s1 in
    let step = λ (b : Bool).
      choose_loop ts (if b then t else timer) (if b then at else time) (tail_of rs) s1 in
    elim (Bool-cases (ltb at time)) [
      | inl e ↦
          let (least, among, (first, rest)) = choose_loop-IsSoonest ts t at (tail_of rs) s1 in
          let less = ltb→lt at time e in
          subst (λ c. IsSoonest c.0 read) (sym (ap step e))
            (least, inr among, (omega arith, (first, rest)))
      | inr e ↦
          let (least, among, (first, rest)) = choose_loop-IsSoonest ts timer time (tail_of rs) s1 in
          let more : time ≤ at = no_sooner at time e in
          subst (λ c. IsSoonest c.0 read) (sym (ap step e))
            (
              least,
              elim among [ inl k ↦ inl k | inr k ↦ inr (inr k) ],
              (first, (omega arith, rest)),
            )
    ]

choose_loop-timers :
    (ts : List ℕ) (timer time : ℕ) (rs : List Resets) (s : TimerThread)
    → ((choose_loop ts timer time rs s).1.timers ≡ s.timers)
      × ((choose_loop ts timer time rs s).1.fired ≡ s.fired)
unfolding choose_loop
choose_loop-timers [] timer time rs s = (refl, refl)
choose_loop-timers (t ∷ ts) timer time rs s =
    let s1 = reset_all (head_of rs) s in
    let sooner = ltb (get_trigger_time t s1) time in
    let (timers, fired) =
      choose_loop-timers ts (if sooner then t else timer)
        (if sooner then get_trigger_time t s1 else time) (tail_of rs) s1 in
    (timers ∙ reset_all-timers (head_of rs) s, fired ∙ reset_all-fired (head_of rs) s)

choose_of-timers :
    (ts : List ℕ) (rs : List Resets) (s : TimerThread)
    → ((choose_of ts rs s).1.timers ≡ s.timers) × ((choose_of ts rs s).1.fired ≡ s.fired)
unfolding choose_of
choose_of-timers [] rs s = (refl, refl)
choose_of-timers (t ∷ ts) rs s =
    let s1 = reset_all (head_of rs) s in
    let (timers, fired) = choose_loop-timers (t ∷ ts) t (get_trigger_time t s1) (tail_of rs) s1 in
    (timers ∙ reset_all-timers (head_of rs) s, fired ∙ reset_all-fired (head_of rs) s)

pub choose-timers : (rs : List Resets) (s : TimerThread) → (choose rs s).1.timers ≡ s.timers
unfolding choose
choose-timers rs s = (choose_of-timers s.timers rs s).0

pub choose-fired : (rs : List Resets) (s : TimerThread) → (choose rs s).1.fired ≡ s.fired
unfolding choose
choose-fired rs s = (choose_of-timers s.timers rs s).1

-- What the search comes to: the soonest of what it read, or nothing when there are no timers.
pub data Chooses (read : List (ℕ × ℕ)) : Option ℕ → Type 0 where
  no_timer : Chooses read none
  soonest : (t : ℕ) → IsSoonest t read → Chooses read (some t)

choose_of-Chooses :
    (ts : List ℕ) (rs : List Resets) (s : TimerThread)
    → Chooses (reads_of ts rs s) (choose_of ts rs s).0
unfolding choose_of
choose_of-Chooses [] rs s = no_timer
choose_of-Chooses (t ∷ ts) rs s =
    let s1 = reset_all (head_of rs) s in
    soonest _ (choose_loop-IsSoonest (t ∷ ts) t (get_trigger_time t s1) (tail_of rs) s1)

pub choose-Chooses : (rs : List Resets) (s : TimerThread) → Chooses (reads rs s) (choose rs s).0
unfolding choose
choose-Chooses rs s = choose_of-Chooses s.timers rs s

abbrev paired : ℕ → TimerThread → ℕ × TimerThread
paired t s = (t, s)

-- Without resets it is the search of `get_next_timer`.
choose_loop-eq :
    (ts : List ℕ) (t : ℕ) (s : TimerThread)
    → choose_loop ts t (get_trigger_time t s) [] s ≡ (next_loop ts t (get_trigger_time t s) s, s)
unfolding choose_loop next_loop reset_all
choose_loop-eq [] t s = refl
choose_loop-eq (u ∷ ts) t s =
    let sooner = next_loop ts u (get_trigger_time u s) s in
    let later = next_loop ts t (get_trigger_time t s) s in
    let step = λ (b : Bool).
      choose_loop ts (if b then u else t) (if b then get_trigger_time u s else get_trigger_time t s)
        [] s in
    let next = λ (b : Bool). paired (if b then sooner else later) s in
    elim (Bool-cases (ltb (get_trigger_time u s) (get_trigger_time t s))) [
      | inl e ↦ ap step e ∙ choose_loop-eq ts u s ∙ sym (ap next e)
      | inr e ↦ ap step e ∙ choose_loop-eq ts t s ∙ sym (ap next e)
    ]

choose_of-eq : (ts : List ℕ) (s : TimerThread) → choose_of ts [] s ≡ (next_of ts s, s)
unfolding choose_of next_of reset_all
choose_of-eq [] s = refl
choose_of-eq (t ∷ ts) s = ap chosen (choose_loop-eq (t ∷ ts) t s)

pub choose-eq : (s : TimerThread) → choose [] s ≡ (get_next_timer s, s)
unfolding choose get_next_timer
choose-eq s = choose_of-eq s.timers s

Among-loop :
    (t time : ℕ) (ts : List ℕ) (rs : List Resets) (s : TimerThread)
    → Among t time (reads_loop ts rs s)
    → has t ts ≡ true
Among-loop t time [] rs s h = absurd h
Among-loop t time (u ∷ ts) rs s (inl (same, at)) = has-either t u ts (inl same)
Among-loop t time (u ∷ ts) rs s (inr h) =
    has-either t u ts (inr (Among-loop t time ts (tail_of rs) (reset_all (head_of rs) s) h))

Among-reads :
    (t time : ℕ) (ts : List ℕ) (rs : List Resets) (s : TimerThread)
    → Among t time (reads_of ts rs s)
    → has t ts ≡ true
Among-reads t time [] rs s h = absurd h
Among-reads t time (u ∷ ts) rs s (inl (same, at)) = has-either t u ts (inl same)
Among-reads t time (u ∷ ts) rs s (inr h) =
    Among-loop t time (u ∷ ts) (tail_of rs) (reset_all (head_of rs) s) h

-- What was read is of the timers of the list.
pub reads-has :
    (t : ℕ) (rs : List Resets) (s : TimerThread) → IsSoonest t (reads rs s) → has t s.timers ≡ true
reads-has t rs s (time, among, least) = Among-reads t time s.timers rs s among
