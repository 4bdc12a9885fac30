-- ===== src/Writer/Room.antt =====
-- What appending comes to: the bytes stand behind what was there, or the buffer is full.
use libremo.Prelude.{
  ℕ, ◌+◌, ◌≤◌, ◌<◌, ◌^◌, ◌≡◌, refl, sym, ap, subst, false, ◌∙◌, List, [], ◌∷◌, ◌++◌, arith, length,
  length-append, length-set, take, drop, length-drop, take-suc_of_set, drop-set_add, lt→ltb,
  append_assoc, append-nil, set, take-set_le,
}
use libremo.Error.{Result, ErrorCode, ok, error, fault, timeout, err_packet_full}
use libremo.Buffer.{right, grow, store, contents}
use libremo.Buffer.Bounds.{grow-fits, grow-full, grown}
use libremo.Writer.{Writer, write_uint8}
use libremo.Writer.Append.{write_all, clear, forget, Emits}
use native.Mathlib.Numerals.{add-one}
use native.Mathlib.Decide.{dec_lt}

-- A writer whose buffer grows to the right inside its array.
pub record IsSink (w : Writer) : Type 0 where
  pub side : w.buffer.side ≡ right
  pub size_le : w.buffer.size ≤ w.buffer.capacity
  pub inside : w.buffer.start + w.buffer.capacity ≤ length w.memory
  pub small : length w.memory < 2 ^ 63

-- The writer behind a byte that fitted.
abbrev put : ℕ → Writer → Writer
put x w = record w {
  buffer = record w.buffer { size = w.buffer.size + 1 };
  memory = set w.memory (w.buffer.start + w.buffer.size) x;
}

grow_one :
    (w : Writer)
    → IsSink w
    → w.buffer.size < w.buffer.capacity
    → grow w.buffer 1
      ≡ ok (record w.buffer { size = w.buffer.size + 1 }, w.buffer.start + w.buffer.size)
grow_one w s h =
    grow-fits w.buffer 1 (omega (arith, s.inside, s.small)) (omega arith)
    ∙ ap (λ t. ok (grown t w.buffer 1)) s.side

write_uint8-fits :
    (x : ℕ) (w : Writer)
    → IsSink w
    → w.buffer.size < w.buffer.capacity
    → write_uint8 x w ≡ ok (put x w)
unfolding write_uint8 store
write_uint8-fits x w s h =
    rw
      (
        grow_one w s h,
        lt→ltb (w.buffer.start + w.buffer.size) (length w.memory) (omega (arith, s.inside)),
      )
      refl

write_uint8-full :
    (x : ℕ) (w : Writer)
    → IsSink w
    → w.buffer.capacity ≤ w.buffer.size
    → write_uint8 x w ≡ error err_packet_full
unfolding write_uint8
write_uint8-full x w s h =
    rw (grow-full w.buffer 1 (omega (arith, s.inside, s.small)) (omega arith))

put-IsSink : (x : ℕ) (w : Writer) → IsSink w → w.buffer.size < w.buffer.capacity → IsSink (put x w)
put-IsSink x w s h = ground (arith, length-set w.memory (w.buffer.start + w.buffer.size) x)

contents-put :
    (x : ℕ) (w : Writer)
    → IsSink w
    → w.buffer.size < w.buffer.capacity
    → contents (put x w).memory (put x w).buffer ≡ contents w.memory w.buffer ++ (x ∷ [])
contents-put x w s h =
    rw (add-one, drop-set_add)
      (take-suc_of_set w.buffer.size (drop w.buffer.start w.memory) x
        (omega (arith, s.inside, length-drop w.buffer.start w.memory)))

-- What a writer that appended `bytes` to `w` is like.
pub record Appended (bytes : List ℕ) (w w' : Writer) : Type 0 where
  pub sink : IsSink w'
  pub shown : contents w'.memory w'.buffer ≡ contents w.memory w.buffer ++ bytes
  pub start : w'.buffer.start ≡ w.buffer.start
  pub size : w'.buffer.size ≡ w.buffer.size + length bytes
  pub capacity : w'.buffer.capacity ≡ w.buffer.capacity
  pub before : take w.buffer.start w'.memory ≡ take w.buffer.start w.memory
  pub array : length w'.memory ≡ length w.memory

put-Appended :
    (x : ℕ) (w : Writer)
    → IsSink w
    → w.buffer.size < w.buffer.capacity
    → Appended (x ∷ []) w (put x w)
put-Appended x w s h = record {
  sink = put-IsSink x w s h;
  shown = contents-put x w s h;
  start = refl;
  size = refl;
  capacity = refl;
  before = take-set_le w.buffer.start _ w.memory x (omega arith);
  array = length-set w.memory _ x;
}

Appended-trans :
    (xs ys : List ℕ) (w1 w2 w3 : Writer)
    → Appended xs w1 w2
    → Appended ys w2 w3
    → Appended (xs ++ ys) w1 w3
Appended-trans xs ys w1 w2 w3 p q = record {
  sink = q.sink;
  shown = q.shown ∙ ap (λ t. t ++ ys) p.shown ∙ append_assoc (contents w1.memory w1.buffer) xs ys;
  start = q.start ∙ p.start;
  size = omega (arith, length-append xs ys);
  capacity = q.capacity ∙ p.capacity;
  before = cc;
  array = q.array ∙ p.array;
}

pub write_all-fits :
    (xs : List ℕ) (w : Writer)
    → IsSink w
    → w.buffer.size + length xs ≤ w.buffer.capacity
    → (w' : Writer) × (write_all xs w ≡ ok w') × Appended xs w w'
unfolding write_all
write_all-fits [] w s h = (
  w,
  refl,
  record {
    sink = s;
    shown = sym (append-nil (contents w.memory w.buffer));
    start = refl;
    size = omega arith;
    capacity = refl;
    before = refl;
    array = refl;
  },
)
write_all-fits (x ∷ xs) w s h =
    let (w', e, a) = write_all-fits xs (put x w) (put-IsSink x w s (omega arith)) (omega arith) in
    (
      w',
      rw (write_uint8-fits x w s (omega arith)) e,
      Appended-trans (x ∷ []) xs w (put x w) w' (put-Appended x w s (omega arith)) a,
    )

pub write_all-full :
    (xs : List ℕ) (w : Writer)
    → IsSink w
    → w.buffer.capacity < w.buffer.size + length xs
    → write_all xs w ≡ error err_packet_full
unfolding write_all
write_all-full [] w s h = absurd (omega (arith, s.size_le))
write_all-full (x ∷ xs) w s h = elim (dec_lt w.buffer.size w.buffer.capacity) [
  | yes fits ↦
      rw (write_uint8-fits x w s fits)
        (write_all-full xs (put x w) (put-IsSink x w s fits) (omega arith))
  | no full ↦ rw (write_uint8-full x w s (omega arith))
]

Appended-unclear :
    (bytes : List ℕ) (w w' : Writer) → Appended bytes (clear w) (clear w') → Appended bytes w w'
Appended-unclear bytes w w' a = record {
  sink = record {
    side = a.sink.side;
    size_le = a.sink.size_le;
    inside = a.sink.inside;
    small = a.sink.small;
  };
  shown = a.shown;
  start = a.start;
  size = a.size;
  capacity = a.capacity;
  before = a.before;
  array = a.array;
}

forget-ok :
    (r : Result Writer) (w : Writer)
    → forget r ≡ ok w
    → (w' : Writer) × (r ≡ ok w') × (clear w' ≡ w)
forget-ok (ok w') w e = (w', refl, ground arith)
forget-ok (error c) w e = cc
forget-ok fault w e = cc
forget-ok timeout w e = cc

forget-error : (r : Result Writer) (c : ErrorCode) → forget r ≡ error c → r ≡ error c
forget-error (ok w') c e = cc
forget-error (error d) c e = e
forget-error fault c e = cc
forget-error timeout c e = cc

module _ (f : Writer → Result Writer) (bytes : List ℕ) (emits : Emits f bytes) where
  -- An operation that has room appends its bytes.
  pub Emits-fits :
      (w : Writer)
      → IsSink w
      → w.has_arraysize ≡ false
      → w.buffer.size + length bytes ≤ w.buffer.capacity
      → (w' : Writer) × (f w ≡ ok w') × Appended bytes w w'
  Emits-fits w s h room =
      let cleared : IsSink (clear w) = record {
        side = s.side;
        size_le = s.size_le;
        inside = s.inside;
        small = s.small;
      } in
      let (w2, e2, a) = write_all-fits bytes (clear w) cleared room in
      let (w1, e1, c) = forget-ok (f w) w2 (emits w h ∙ e2) in
      (w1, e1, Appended-unclear bytes w w1 (subst (Appended bytes (clear w)) (sym c) a))

  -- One that has not throws.
  pub Emits-full :
      (w : Writer)
      → IsSink w
      → w.has_arraysize ≡ false
      → w.buffer.capacity < w.buffer.size + length bytes
      → f w ≡ error err_packet_full
  Emits-full w s h full =
      let cleared : IsSink (clear w) = record {
        side = s.side;
        size_le = s.size_le;
        inside = s.inside;
        small = s.small;
      } in
      forget-error (f w) err_packet_full (emits w h ∙ write_all-full bytes (clear w) cleared full)
