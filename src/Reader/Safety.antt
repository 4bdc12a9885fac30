-- ===== src/Reader/Safety.antt =====
-- Bytes that no writer made: what the reader does with an arbitrary buffer.
use libremo.Prelude.{
  ℕ, zero, suc, ◌+◌, ◌^◌, ◌≤◌, ◌<◌, ◌≡◌, refl, ◌∙◌, List, [], ◌∷◌, arith, length, length-set,
  get_elem?, some, lt→ltb, set,
}
use native.Mathlib.Decide.{dec_lt}
use native.Mathlib.Nat.{le_refl}
use libremo.Error.{Result, ok, error, fault, timeout, err_bad_packet_access}
use libremo.Buffer.{access_read, store}
use libremo.Reader.{
  Reader, Read, and_then, pure, load, read_uint8, read_into, read_chars, chars_step,
}

-- The window lies in the array, and the offset in the window.
pub record IsSafe (r : Reader) : Type 0 where
  pub inside : r.buffer.start + r.buffer.size ≤ length r.memory
  pub small : length r.memory < 2 ^ 63
  pub within : r.offset ≤ r.buffer.size

-- The outcome is a value or an exception: no access outside an object, and no endless loop.
abbrev pub Lands : {A : Type 0} → Reader → Result (A × Reader) → Type 0
Lands r (ok (a, r')) = IsSafe r' × (r'.buffer.size ≡ r.buffer.size) × (r.offset ≤ r'.offset)
Lands r (error e) = Unit {0}
Lands r fault = ⊥
Lands r timeout = ⊥

abbrev pub forward : Reader → Reader
forward r = record r { offset = r.offset + 1 }

get_elem?-some : (xs : List ℕ) (i : ℕ) → i < length xs → (x : ℕ) × (get_elem? xs i ≡ some x)
get_elem?-some [] i h = absurd (omega arith)
get_elem?-some (x ∷ xs) zero h = (x, refl)
get_elem?-some (x ∷ xs) (suc i) h = get_elem?-some xs i (omega arith)

pub forward-IsSafe : (r : Reader) → IsSafe r → r.offset < r.buffer.size → IsSafe (forward r)
forward-IsSafe r s h = record { inside = s.inside; small = s.small; within = omega arith }

pub store-inside : (m : List ℕ) (i v : ℕ) → i < length m → store m i v ≡ ok (set m i v)
unfolding store
store-inside m i v h = rw (lt→ltb i (length m) h) refl

pub access-inside :
    (r : Reader) (n : ℕ)
    → IsSafe r
    → n < 2 ^ 62
    → r.offset + n ≤ r.buffer.size
    → access_read r.buffer r.offset n ≡ ok (r.buffer.start + r.offset)
unfolding access_read
access-inside r n s k h = ground (arith, s.inside, s.small)

pub access-outside :
    (r : Reader) (n : ℕ)
    → IsSafe r
    → n < 2 ^ 62
    → r.buffer.size < r.offset + n
    → access_read r.buffer r.offset n ≡ error err_bad_packet_access
unfolding access_read
access-outside r n s k h = ground (arith, s.inside, s.small, s.within)

pub read_uint8-inside :
    (r : Reader)
    → IsSafe r
    → r.offset < r.buffer.size
    → (x : ℕ) × (get_elem? r.memory (r.buffer.start + r.offset) ≡ some x)
      × (read_uint8 r ≡ ok (x, forward r))
unfolding read_uint8
read_uint8-inside r s h =
    let (x, e) = get_elem?-some r.memory (r.buffer.start + r.offset) (omega (arith, s.inside)) in
    (x, e, rw (access-inside r 1 s (omega arith) (omega arith), load, e) refl)

pub read_uint8-outside :
    (r : Reader) → IsSafe r → r.buffer.size ≤ r.offset → read_uint8 r ≡ error err_bad_packet_access
unfolding read_uint8
read_uint8-outside r s h = rw (access-outside r 1 s (omega arith) (omega arith)) refl

pub widen :
    {A : Type 0} (r r1 : Reader) (o : Result (A × Reader))
    → r1.buffer.size ≡ r.buffer.size
    → r.offset ≤ r1.offset
    → Lands r1 o
    → Lands r o
widen r r1 (ok (a, r2)) e h (s, e2, h2) = (s, e2 ∙ e, omega arith)
widen r r1 (error c) e h l = tt
widen r r1 fault e h l = l
widen r r1 timeout e h l = l

-- A read after one that lands.
pub Lands-then :
    {A B : Type 0} (r : Reader) (o : Result (A × Reader)) (k : A → Read B)
    → Lands r o
    → ((a : A) (r1 : Reader)
        → IsSafe r1
        → r1.buffer.size ≡ r.buffer.size
        → r.offset ≤ r1.offset
        → Lands r1 (k a r1))
    → Lands r (and_then o k)
Lands-then r (ok (a, r1)) k (s, e, h) next = widen r r1 (k a r1) e h (next a r1 s e h)
Lands-then r (error c) k l next = tt
Lands-then r fault k l next = absurd l
Lands-then r timeout k l next = absurd l

-- A byte is there and the rest lands from behind it, or the access is refused.
pub Lands-uint8 :
    {B : Type 0} (r : Reader) (k : ℕ → Read B)
    → IsSafe r
    → ((x : ℕ) → r.offset < r.buffer.size → Lands (forward r) (k x (forward r)))
    → Lands r (and_then (read_uint8 r) k)
Lands-uint8 r k s next = elim (dec_lt r.offset r.buffer.size) [
  | yes h ↦
      let (x, e, f) = read_uint8-inside r s h in
      rw f (widen r (forward r) (k x (forward r)) refl (omega arith) (next x h))
  | no h ↦ rw (read_uint8-outside r s (omega arith)) tt
]

pub Lands-into :
    (rounds i : ℕ) (value : List ℕ) (r : Reader)
    → IsSafe r
    → i + rounds ≤ length value
    → Lands r (read_into rounds i value r)
unfolding read_into
Lands-into zero i value r s h = (s, refl, le_refl r.offset)
Lands-into (suc rounds) i value r s h = Lands-uint8 r _ s λ x more.
    rw (store-inside value i x (omega arith)) (
      Lands-into rounds (i + 1) (set value i x) (forward r) (forward-IsSafe r s more)
        (omega (arith, length-set value i x)))

pub Lands-chars :
    (fuel : ℕ) (r : Reader)
    → IsSafe r
    → r.buffer.size < r.offset + fuel
    → Lands r (read_chars fuel r)
unfolding read_chars
Lands-chars zero r s h = absurd (omega (arith, s.within))
Lands-chars (suc fuel) r s h = Lands-uint8 r (chars_step (read_chars fuel)) s λ x more.
    step_lands x (forward r) (forward-IsSafe r s more)
      (Lands-chars fuel (forward r) (forward-IsSafe r s more) (omega arith))
  where
    step_lands :
        (x : ℕ) (q : Reader)
        → IsSafe q
        → Lands q (read_chars fuel q)
        → Lands q (chars_step (read_chars fuel) x q)
    step_lands zero q t l = (t, refl, le_refl q.offset)
    step_lands (suc x) q t l =
        Lands-then q (read_chars fuel q) (λ cs. pure (suc x ∷ cs)) l
          (λ cs q1 t1 e1 h1. (t1, refl, le_refl q1.offset))
