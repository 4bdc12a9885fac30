-- ===== src/Async/Pending.antt =====
-- What is left of the pending futures.
use libremo.Prelude.{
  ℕ, zero, suc, ◌≡◌, refl, sym, ap, ◌∙◌, Bool, List, [], ◌∷◌, ◌++◌, length, get_elem?, arith,
  if◌then◌else◌, some, Bool-cases, inl, inr, append_assoc, append-nil,
}
use libremo.Error.{ok}
use libremo.Async.{erase_at, remove_completed, fire_and_forget}

-- The futures that are not complete.
abbrev pub incomplete : (ℕ → Bool) → List ℕ → List ℕ
incomplete ready [] = []
incomplete ready (f ∷ fs) = if ready f then incomplete ready fs else f ∷ incomplete ready fs

elem_behind : (fs : List ℕ) (f : ℕ) (gs : List ℕ) → get_elem? (fs ++ (f ∷ gs)) (length fs) ≡ some f
elem_behind [] f gs = refl
elem_behind (x ∷ fs) f gs = elem_behind fs f gs

erase_at-behind :
    (fs : List ℕ) (f : ℕ) (gs : List ℕ) → erase_at (length fs) (fs ++ (f ∷ gs)) ≡ ok (fs ++ gs)
unfolding erase_at
erase_at-behind [] f gs = refl
erase_at-behind (x ∷ fs) f gs = rw (erase_at-behind fs f gs) refl

incomplete-snoc :
    (ready : ℕ → Bool) (fs : List ℕ) (f : ℕ) (gs : List ℕ)
    → incomplete ready (fs ++ (f ∷ [])) ++ gs
      ≡ incomplete ready fs ++ (if ready f then gs else f ∷ gs)
incomplete-snoc ready [] f gs = elim (Bool-cases (ready f)) [
  | inl e ↦ rw e refl
  | inr e ↦ rw e refl
]
incomplete-snoc ready (x ∷ fs) f gs = elim (Bool-cases (ready x)) [
  | inl e ↦ rw e (incomplete-snoc ready fs f gs)
  | inr e ↦ rw e (ap (λ r. x ∷ r) (incomplete-snoc ready fs f gs))
]

-- A list that is not empty has a last element.
snoc_of :
    (x : ℕ) (xs : List ℕ)
    → (fs : List ℕ) × (f : ℕ) × (x ∷ xs ≡ fs ++ (f ∷ [])) × (length fs ≡ length xs)
snoc_of x [] = ([], x, refl, refl)
snoc_of x (y ∷ ys) = let (fs, f, e, n) = snoc_of y ys in (x ∷ fs, f, ap (λ r. x ∷ r) e, ap suc n)

last_step :
    (ready : ℕ → Bool) (fs : List ℕ) (f : ℕ) (gs : List ℕ)
    → ((hs : List ℕ)
        → remove_completed ready (length fs) (fs ++ hs) ≡ ok (incomplete ready fs ++ hs))
    → remove_completed ready (suc (length fs)) (fs ++ (f ∷ gs))
      ≡ ok (incomplete ready fs ++ (if ready f then gs else f ∷ gs))
unfolding remove_completed
last_step ready fs f gs rest = elim (Bool-cases (ready f)) [
  | inl e ↦ rw (elem_behind fs f gs, remove_completed, e, erase_at-behind fs f gs) (rest gs)
  | inr e ↦ rw (elem_behind fs f gs, remove_completed, e) (rest (f ∷ gs))
]

remove_completed_lem :
    (ready : ℕ → Bool) (i : ℕ) (fs gs : List ℕ)
    → length fs ≡ i
    → remove_completed ready i (fs ++ gs) ≡ ok (incomplete ready fs ++ gs)
unfolding remove_completed
remove_completed_lem ready zero [] gs n = refl
remove_completed_lem ready zero (f ∷ fs) gs n = absurd (omega arith)
remove_completed_lem ready (suc i) [] gs n = absurd (omega arith)
remove_completed_lem ready (suc i) (x ∷ xs) gs n =
    let (fs, f, e, m) = snoc_of x xs in
    let size : length fs ≡ i = omega arith in
    ap (λ r. remove_completed ready (suc i) (r ++ gs)) e
    ∙ ap (λ r. remove_completed ready (suc i) r) (append_assoc fs (f ∷ []) gs)
    ∙ ap (λ k. remove_completed ready (suc k) (fs ++ (f ∷ gs))) (sym size)
    ∙ last_step ready fs f gs (λ hs.
      ap (λ k. remove_completed ready k (fs ++ hs)) size ∙ remove_completed_lem ready i fs hs size)
    ∙ ap (λ r. ok r) (sym (incomplete-snoc ready fs f gs))
    ∙ ap (λ r. ok (incomplete ready r ++ gs)) (sym e)

-- The loop that removes the futures that are complete stays inside the list of pending futures,
-- removes all of them and no other, and keeps the others in order; the new future is put behind
-- them.
pub fire_and_forget_lem :
    (ready : ℕ → Bool) (future : ℕ) (pending : List ℕ)
    → fire_and_forget ready future pending ≡ ok (incomplete ready pending ++ (future ∷ []))
unfolding fire_and_forget
fire_and_forget_lem ready future pending =
    let e : remove_completed ready (length pending) pending ≡ ok (incomplete ready pending) =
      ap (λ r. remove_completed ready (length pending) r) (sym (append-nil pending))
      ∙ remove_completed_lem ready (length pending) pending [] refl
      ∙ ap (λ r. ok r) (append-nil (incomplete ready pending)) in
    rw e refl
