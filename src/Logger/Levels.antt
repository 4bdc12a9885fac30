-- ===== src/Logger/Levels.antt =====
-- Which levels of the log are written, and under which names.
use libremo.Prelude.{
  ℕ, zero, suc, ◌+◌, ◌≤◌, ◌<◌, ◌≡◌, ◌⊎◌, ◌↔◌, inl, inr, ◌||◌, leb→le, ==_iff, refl, sym, ap, subst,
  ◌∙◌, ◌==◌, get_elem?, Option, Bool, true, false, List, [], ◌∷◌, ◌++◌, arith, codes, decimal, none,
  some,
}
use libremo.Colors.Visible.{IsPlain, IsPlain-append, decimal-IsPlain}
use libremo.Logger.{LogLevel, value, below, log_all, at_most, same_level, look, level_enabled}

-- The order of the ints.
abbrev pub AtMost : LogLevel → LogLevel → Type 0
AtMost (value a) (value b) = a ≤ b
AtMost (value a) (below b) = ⊥
AtMost (below a) (value b) = Unit {0}
AtMost (below a) (below b) = b ≤ a

-- A level that is logged: it is at most the global one, or all are.
abbrev pub IsLogged : LogLevel → LogLevel → Type 0
IsLogged level global = AtMost level global ⊎ (global ≡ log_all)

at_most-AtMost : (a b : LogLevel) → at_most a b ≡ true → AtMost a b
at_most-AtMost (value a) (value b) h = leb→le a b h
at_most-AtMost (value a) (below b) h = absurd (ground arith)
at_most-AtMost (below a) (value b) h = tt
at_most-AtMost (below a) (below b) h = leb→le b a h

AtMost-at_most : (a b : LogLevel) → AtMost a b → at_most a b ≡ true
AtMost-at_most (value a) (value b) h = ground arith
AtMost-at_most (value a) (below b) h = absurd h
AtMost-at_most (below a) (value b) h = refl
AtMost-at_most (below a) (below b) h = ground arith

all-eq : (a : LogLevel) → same_level a log_all ≡ true → a ≡ log_all
all-eq (value a) h = ap value ((==_iff a 9999).0 h)
all-eq (below a) h = absurd (ground arith)

either : (a b : Bool) → (a || b) ≡ true → (a ≡ true) ⊎ (b ≡ true)
either true b h = inl refl
either false b h = inr h

or-true : (a : Bool) → (a || true) ≡ true
or-true true = refl
or-true false = refl

pub level_enabled_lem :
    (level global : LogLevel) → (level_enabled level global ≡ true) ↔ IsLogged level global
unfolding level_enabled
level_enabled_lem level global = (
  λ h. elim (either (at_most level global) (same_level global log_all) h) [
    | inl e ↦ inl (at_most-AtMost level global e)
    | inr e ↦ inr (all-eq global e)
  ],
  λ h. elim h [
    | inl e ↦ ap (λ b. b || same_level global log_all) (AtMost-at_most level global e)
    | inr e ↦
        ap (λ g. at_most level global || same_level g log_all) e ∙ or-true (at_most level global)
  ],
)

-- The names of the levels from 0 on.
abbrev pub level_names : List (List ℕ)
level_names =
    codes "fatal"
    ∷ codes "error"
    ∷ codes "warn "
    ∷ codes "note "
    ∷ codes "excpt"
    ∷ codes "info "
    ∷ codes "verb "
    ∷ []

abbrev pub name_or : List ℕ → Option (List ℕ) → List ℕ
name_or other none = other
name_or other (some name) = name

-- A level without a name is shown as its number.
abbrev pub label_of : LogLevel → List ℕ
label_of (value n) = name_or (codes "L" ++ decimal n) (get_elem? level_names n)
label_of (below n) = codes "L-" ++ decimal (n + 1)

no_name : (n k : ℕ) → 7 ≤ n → k < 7 → (n == k) ≡ false
no_name n k h l = ground arith

pub label-eq : (level : LogLevel) → (look level).label ≡ label_of level
unfolding look
label-eq (value zero) = refl
label-eq (value (suc zero)) = refl
label-eq (value (suc (suc zero))) = refl
label-eq (value (suc (suc (suc zero)))) = refl
label-eq (value (suc (suc (suc (suc zero))))) = refl
label-eq (value (suc (suc (suc (suc (suc zero)))))) = refl
label-eq (value (suc (suc (suc (suc (suc (suc zero))))))) = refl
label-eq (value (suc (suc (suc (suc (suc (suc (suc n)))))))) =
    rw
      (
        no_name (suc (suc (suc (suc (suc (suc (suc n))))))) 0 (omega arith) (omega arith),
        no_name (suc (suc (suc (suc (suc (suc (suc n))))))) 1 (omega arith) (omega arith),
        no_name (suc (suc (suc (suc (suc (suc (suc n))))))) 2 (omega arith) (omega arith),
        no_name (suc (suc (suc (suc (suc (suc (suc n))))))) 3 (omega arith) (omega arith),
        no_name (suc (suc (suc (suc (suc (suc (suc n))))))) 4 (omega arith) (omega arith),
        no_name (suc (suc (suc (suc (suc (suc (suc n))))))) 5 (omega arith) (omega arith),
        no_name (suc (suc (suc (suc (suc (suc (suc n))))))) 6 (omega arith) (omega arith),
      )
      refl
label-eq (below n) = ap (λ k. codes "L-" ++ decimal k) (omega arith)

-- The names are plain, and so is a number.
names-IsPlain : (n : ℕ) → IsPlain (name_or (codes "L" ++ decimal n) (get_elem? level_names n))
names-IsPlain zero = omega arith
names-IsPlain (suc zero) = omega arith
names-IsPlain (suc (suc zero)) = omega arith
names-IsPlain (suc (suc (suc zero))) = omega arith
names-IsPlain (suc (suc (suc (suc zero)))) = omega arith
names-IsPlain (suc (suc (suc (suc (suc zero))))) = omega arith
names-IsPlain (suc (suc (suc (suc (suc (suc zero)))))) = omega arith
names-IsPlain (suc (suc (suc (suc (suc (suc (suc n))))))) =
    IsPlain-append (codes "L") (decimal (suc (suc (suc (suc (suc (suc (suc n)))))))) (omega arith)
      (decimal-IsPlain (suc (suc (suc (suc (suc (suc (suc n))))))))

label_of-IsPlain : (level : LogLevel) → IsPlain (label_of level)
label_of-IsPlain (value n) = names-IsPlain n
label_of-IsPlain (below n) =
    IsPlain-append (codes "L-") (decimal (n + 1)) (omega arith) (decimal-IsPlain (n + 1))

pub label-IsPlain : (level : LogLevel) → IsPlain (look level).label
unfolding look
label-IsPlain level = subst IsPlain (sym (label-eq level)) (label_of-IsPlain level)
