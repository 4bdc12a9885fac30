-- ===== src/Logger/Numbers.antt =====
-- The numbers of threads.
use libremo.Prelude.{
  ℕ, zero, suc, ◌<◌, ◌≡◌, ◌↔◌, ◌⊎◌, refl, sym, ap, ◌∙◌, subst, List, [], ◌∷◌, ◌==◌, ==_iff, ==_refl,
  if◌then◌else◌, arith, length, get_elem?, none, some, Bool-cases, Option-cases, inl, inr,
}
use libremo.Logger.{find_thread, get_thread_number}

-- Each thread is in the map once, with the number of those that came before.
abbrev IsNumbered : List (ℕ × ℕ) → Type 0
IsNumbered [] = Unit {0}
IsNumbered ((t, n) ∷ map) = (n ≡ length map) × (find_thread t map ≡ none) × IsNumbered map

-- The numbers that the threads get that ask one after the other, and the map then.
unfoldable pub number_all : List ℕ → List (ℕ × ℕ) → List ℕ × List (ℕ × ℕ)
number_all [] map = ([], map)
number_all (t ∷ ts) map =
    let (n, map1) = get_thread_number t map in let (ns, map2) = number_all ts map1 in (n ∷ ns, map2)

get_thread_number-IsNumbered :
    (t : ℕ) (map : List (ℕ × ℕ)) → IsNumbered map → IsNumbered (get_thread_number t map).1
unfolding get_thread_number
get_thread_number-IsNumbered t map h = elim (Option-cases (find_thread t map)) [
  | inl e ↦ rw e (refl, e, h)
  | inr (n, e) ↦ rw e h
]

get_thread_number-finds :
    (t : ℕ) (map : List (ℕ × ℕ))
    → find_thread t (get_thread_number t map).1 ≡ some (get_thread_number t map).0
unfolding get_thread_number
get_thread_number-finds t map = elim (Option-cases (find_thread t map)) [
  | inl e ↦ rw (e, ==_refl t) refl
  | inr (n, e) ↦ rw (e, e) refl
]

-- A number that a thread has, it keeps.
get_thread_number-keeps :
    (t u n : ℕ) (map : List (ℕ × ℕ))
    → find_thread u map ≡ some n
    → find_thread u (get_thread_number t map).1 ≡ some n
unfolding get_thread_number
get_thread_number-keeps t u n map h = elim (Option-cases (find_thread t map)) [
  | inr (m, e) ↦ rw e h
  | inl e ↦ rw e (elim (Bool-cases (t == u)) [
    | inr f ↦ rw f h
    | inl f ↦
        let gone : find_thread u map ≡ none =
          subst (λ x. find_thread x map ≡ none) ((==_iff t u).0 f) e in
        cc
  ])
]

some-eq : (x y : ℕ) → some x ≡ some y → x ≡ y
some-eq x y h = cc

find_thread-cons :
    (t u k n : ℕ) (map : List (ℕ × ℕ))
    → find_thread t ((u, k) ∷ map) ≡ some n
    → ((u ≡ t) × (k ≡ n)) ⊎ (find_thread t map ≡ some n)
find_thread-cons t u k n map e = elim (Bool-cases (u == t)) [
  | inl f ↦
      let same : some k ≡ some n =
        subst (λ b. (if b then some k else find_thread t map) ≡ some n) f e in
      inl ((==_iff u t).0 f, cc)
  | inr f ↦ inr (subst (λ b. (if b then some k else find_thread t map) ≡ some n) f e)
]

find_thread-lt :
    (t n : ℕ) (map : List (ℕ × ℕ)) → IsNumbered map → find_thread t map ≡ some n → n < length map
find_thread-lt t n [] h e = cc
find_thread-lt t n ((u, k) ∷ map) (hk, hu, h) e = elim (find_thread-cons t u k n map e) [
  | inl (same, kn) ↦ omega arith
  | inr f ↦ omega (arith, find_thread-lt t n map h f)
]

-- No two threads have the same number.
find_thread-injective :
    (t u n : ℕ) (map : List (ℕ × ℕ))
    → IsNumbered map
    → find_thread t map ≡ some n
    → find_thread u map ≡ some n
    → t ≡ u
find_thread-injective t u n [] h e f = cc
find_thread-injective t u n ((v, k) ∷ map) (hk, hv, h) e f = elim (find_thread-cons t v k n map e) [
  | inl (vt, kn) ↦ elim (find_thread-cons u v k n map f) [
    | inl (vu, kn') ↦ sym vt ∙ vu
    | inr f' ↦ absurd (omega (arith, find_thread-lt u n map h f'))
  ]
  | inr e' ↦ elim (find_thread-cons u v k n map f) [
    | inl (vu, kn) ↦ absurd (omega (arith, find_thread-lt t n map h e'))
    | inr f' ↦ find_thread-injective t u n map h e' f'
  ]
]

number_all-keeps :
    (ts : List ℕ) (u n : ℕ) (map : List (ℕ × ℕ))
    → find_thread u map ≡ some n
    → find_thread u (number_all ts map).1 ≡ some n
unfolding number_all
number_all-keeps [] u n map h = h
number_all-keeps (t ∷ ts) u n map h =
    number_all-keeps ts u n (get_thread_number t map).1 (get_thread_number-keeps t u n map h)

number_all-IsNumbered :
    (ts : List ℕ) (map : List (ℕ × ℕ)) → IsNumbered map → IsNumbered (number_all ts map).1
unfolding number_all
number_all-IsNumbered [] map h = h
number_all-IsNumbered (t ∷ ts) map h =
    number_all-IsNumbered ts (get_thread_number t map).1 (get_thread_number-IsNumbered t map h)

-- What a thread got is what the map has for it in the end.
number_all-finds :
    (ts : List ℕ) (map : List (ℕ × ℕ)) (i t n : ℕ)
    → get_elem? ts i ≡ some t
    → get_elem? (number_all ts map).0 i ≡ some n
    → find_thread t (number_all ts map).1 ≡ some n
unfolding number_all
number_all-finds [] map i t n e f = cc
number_all-finds (u ∷ ts) map zero t n e f =
    let same : u ≡ t = cc in
    let number : (get_thread_number u map).0 ≡ n = cc in
    number_all-keeps ts t n (get_thread_number u map).1 (
      subst (λ x. find_thread x (get_thread_number u map).1 ≡ some n) same
        (get_thread_number-finds u map ∙ ap some number))
number_all-finds (u ∷ ts) map (suc i) t n e f =
    number_all-finds ts (get_thread_number u map).1 i t n e f

-- Of the numbers that threads get one after the other, beginning with none, two are equal
-- exactly when they are the same thread's, and each is below the count of the threads that have
-- one.
pub number_all_lem :
    (ts : List ℕ) (i j t u n m : ℕ)
    → get_elem? ts i ≡ some t
    → get_elem? ts j ≡ some u
    → get_elem? (number_all ts []).0 i ≡ some n
    → get_elem? (number_all ts []).0 j ≡ some m
    → ((n ≡ m) ↔ (t ≡ u)) × (n < length (number_all ts []).1)
number_all_lem ts i j t u n m ei ej fi fj =
    let final = (number_all ts []).1 in
    let numbered = number_all-IsNumbered ts [] tt in
    let found_t = number_all-finds ts [] i t n ei fi in
    let found_u = number_all-finds ts [] j u m ej fj in
    (
      (
        λ same. find_thread-injective t u m final numbered (found_t ∙ ap some same) found_u,
        λ same. some-eq n m (sym found_t ∙ ap (λ x. find_thread x final) same ∙ found_u),
      ),
      find_thread-lt t n final numbered found_t,
    )
