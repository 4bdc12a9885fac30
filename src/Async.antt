-- ===== src/Async.antt =====
-- src/utils/async.cpp: functions that are started and forgotten.
pub mod Pending
use libremo.Prelude.{
  ℕ, zero, suc, Bool, List, [], ◌∷◌, ◌++◌, length, get_elem?, if◌then◌else◌, none, some,
}
use libremo.Error.{Result, ok, fault, ◌>>=◌}

-- `erase(begin() + i)`
unfoldable pub erase_at : ℕ → List ℕ → Result (List ℕ)
erase_at i [] = fault
erase_at zero (f ∷ fs) = ok fs
erase_at (suc i) (f ∷ fs) = do rest ← erase_at i fs; ok (f ∷ rest)

-- The loop over `s_pending_futures`, whose next index is one less than `i`. Futures are named by
-- numbers; `ready` says which ones `wait_for` finds to be complete.
unfoldable pub remove_completed : (ℕ → Bool) → ℕ → List ℕ → Result (List ℕ)
unfolding erase_at
remove_completed ready zero pending = ok pending
remove_completed ready (suc i) pending = elim (get_elem? pending i) [
  | none ↦ fault
  | some f ↦ do
    pending' ← if ready f then erase_at i pending else ok pending
    remove_completed ready i pending'
]

-- fire_and_forget, and what is left of s_pending_futures; `async` passes the future of the function
-- that it has started.
unfoldable pub fire_and_forget : (ℕ → Bool) → ℕ → List ℕ → Result (List ℕ)
unfolding remove_completed
fire_and_forget ready future pending = do
  pending' ← remove_completed ready (length pending) pending
  ok (pending' ++ (future ∷ []))
