-- ===== src/Timer/Next.antt =====
-- The timer that the thread waits for is the one to fire first.
use libremo.Prelude.{
  ℕ, ◌≤◌, ◌<◌, ◌≡◌, ◌⊎◌, refl, sym, ap, subst, ◌∙◌, true, false, List, [], ◌∷◌, ◌==◌, ltb,
  if◌then◌else◌, All, arith, Bool-cases, inl, inr, Option, none, some, has, ltb→lt, ==_refl,
}
use libremo.Timer.{TimerThread, get_trigger_time, next_loop, next_of, get_next_timer}

-- No timer of these fires sooner.
abbrev pub IsNext : ℕ → List ℕ → TimerThread → Type 0
IsNext t ts s = All (λ u. get_trigger_time t s ≤ get_trigger_time u s) ts

abbrev pub IsLeast : ℕ → ℕ → List ℕ → TimerThread → Type 0
IsLeast r t ts s =
    (get_trigger_time r s ≤ get_trigger_time t s) × IsNext r ts s × ((r ≡ t) ⊎ (has r ts ≡ true))

pub has-either : (r u : ℕ) (ts : List ℕ) → (r ≡ u) ⊎ (has r ts ≡ true) → has r (u ∷ ts) ≡ true
has-either r u ts (inl e) = rw (e, ==_refl u) refl
has-either r u ts (inr e) = elim (Bool-cases (u == r)) [
  | inl k ↦ rw k refl
  | inr k ↦ rw (k, e) refl
]

pub no_sooner : (a b : ℕ) → ltb a b ≡ false → b ≤ a
no_sooner a b e = ground arith

next_loop-IsLeast :
    (ts : List ℕ) (t : ℕ) (s : TimerThread)
    → IsLeast (next_loop ts t (get_trigger_time t s) s) t ts s
unfolding next_loop
next_loop-IsLeast [] t s = (omega arith, tt, inl refl)
next_loop-IsLeast (u ∷ ts) t s =
    let sooner = next_loop ts u (get_trigger_time u s) s in
    let later = next_loop ts t (get_trigger_time t s) s in
    elim (Bool-cases (ltb (get_trigger_time u s) (get_trigger_time t s))) [
      | inl e ↦
          let (least, next, among) = next_loop-IsLeast ts u s in
          let less : get_trigger_time u s < get_trigger_time t s = ltb→lt _ _ e in
          subst (λ b. IsLeast (if b then sooner else later) t (u ∷ ts) s) (sym e)
            (omega arith, (least, next), inr (has-either sooner u ts among))
      | inr e ↦
          let (least, next, among) = next_loop-IsLeast ts t s in
          let more : get_trigger_time t s ≤ get_trigger_time u s = no_sooner _ _ e in
          subst (λ b. IsLeast (if b then sooner else later) t (u ∷ ts) s) (sym e)
            (
              omega arith,
              (omega arith, next),
              elim among [ inl k ↦ inl k | inr k ↦ inr (has-either later u ts (inr k)) ],
            )
    ]

-- What the thread waits for.
pub data Waits (s : TimerThread) : Option ℕ → Type 0 where
  for_cancel : s.timers ≡ [] → Waits s none
  for_timer : (t : ℕ) → has t s.timers ≡ true → IsNext t s.timers s → Waits s (some t)

next_of-Waits : (ts : List ℕ) (s : TimerThread) → s.timers ≡ ts → Waits s (next_of ts s)
unfolding next_of
next_of-Waits [] s e = for_cancel e
next_of-Waits (t ∷ ts) s e =
    let (least, next, among) = next_loop-IsLeast (t ∷ ts) t s in
    let r = next_loop (t ∷ ts) t (get_trigger_time t s) s in
    for_timer r (ap (has r) e ∙ elim among [ inl k ↦ has-either r t ts (inl k) | inr k ↦ k ])
      (subst (λ us. IsNext r us s) (sym e) next)

-- While no timer is reset, the next timer is one of the list that no other one is to fire
-- before; there is none when the list is empty.
pub get_next_timer-Waits : (s : TimerThread) → Waits s (get_next_timer s)
unfolding get_next_timer
get_next_timer-Waits s = next_of-Waits s.timers s refl
