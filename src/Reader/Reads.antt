-- ===== src/Reader/Reads.antt =====
-- What a read takes off the bytes ahead, and rules for one read after another.
use libremo.Prelude.{
  ℕ, zero, suc, ◌+◌, ◌^◌, ◌≤◌, ◌<◌, ◌≡◌, refl, sym, ap, subst, ◌∙◌, true, false, List, [], ◌∷◌,
  ◌++◌, append_assoc, arith, length, length-append, take, drop, get_elem?, get_elem?-drop,
  get_elem?-take, get_elem?-drop_add, drop-suc_of_drop, set-length_append, some, lt→ltb, le→ltb,
  All, ◌≢◌, take-drop-take, take-length_append, drop-add, drop-length_append,
}
use mathlib.Core.Path.{ap₂}
use libremo.Error.{Result, ok}
use libremo.Types.{size_of, BaseId}
use libremo.Buffer.{access_read, contents, store}
use libremo.Reader.{
  Reader, Read, ◌>>=◌, and_then, pure, read_uint8, read_type, header_type, read_into, read_chars,
  read_cstr, read_ptr, has_more, load, give_up, chars_step, skip_array,
}

-- These bytes are left in the buffer.
pub record Ahead (r : Reader) (bytes : List ℕ) : Type 0 where
  pub rest : drop r.offset (contents r.memory r.buffer) ≡ bytes
  pub held : r.offset + length bytes ≡ r.buffer.size
  pub small : r.buffer.size < 2 ^ 63

-- The read succeeds with this value, and takes these bytes.
abbrev pub Reads : {A : Type 0} → Read A → List ℕ → A → Type 0
Reads m bytes a =
    (r : Reader) (rest : List ℕ)
    → Ahead r (bytes ++ rest)
    → (r' : Reader) × (m r ≡ ok (a, r')) × Ahead r' rest

pub Reads-pure : {A : Type 0} (a : A) → Reads (pure a) [] a
Reads-pure a r rest h = (r, refl, h)

pub Reads-bind :
    {A B : Type 0} (m : Read A) (k : A → Read B) (xs ys : List ℕ) (a : A) (b : B)
    → Reads m xs a
    → Reads (k a) ys b
    → Reads (m >>= k) (xs ++ ys) b
Reads-bind m k xs ys a b p q r rest h =
    let h' : Ahead r (xs ++ (ys ++ rest)) = subst (Ahead r) (append_assoc xs ys rest) h in
    let (r1, e1, h1) = p r (ys ++ rest) h' in
    let (r2, e2, h2) = q r1 rest h1 in (r2, ap (λ t. and_then t k) e1 ∙ e2, h2)

-- A read that goes on with a pure function of what it read.
pub Reads-map :
    {A B : Type 0} (m : Read A) (f : A → B) (xs : List ℕ) (a : A)
    → Reads m xs a
    → Reads (m >>= λ x. pure (f x)) xs (f a)
Reads-map m f xs a p r rest h =
    let (r1, e1, h1) = p r rest h in (r1, ap (λ t. and_then t (λ x. pure (f x))) e1, h1)

abbrev forward : Reader → Reader
forward r = record r { offset = r.offset + 1 }

Ahead-elem :
    (r : Reader) (x : ℕ) (xs : List ℕ)
    → Ahead r (x ∷ xs)
    → get_elem? r.memory (r.buffer.start + r.offset) ≡ some x
Ahead-elem r x xs h =
    sym (get_elem?-drop_add r.buffer.start r.offset r.memory)
    ∙ get_elem?-take r.buffer.size r.offset _ x (get_elem?-drop r.offset _ x xs h.rest)

load-elem :
    (r : Reader) (x : ℕ) (xs : List ℕ)
    → Ahead r (x ∷ xs)
    → load r.memory (r.buffer.start + r.offset) ≡ ok x
unfolding load
load-elem r x xs h = rw (Ahead-elem r x xs h, load)

Ahead-access :
    (r : Reader) (n : ℕ) (xs : List ℕ)
    → Ahead r xs
    → n ≤ length xs
    → access_read r.buffer r.offset n ≡ ok (r.buffer.start + r.offset)
unfolding access_read
Ahead-access r n xs h k = ground (arith, h.held, h.small)

Ahead-forward : (r : Reader) (x : ℕ) (xs : List ℕ) → Ahead r (x ∷ xs) → Ahead (forward r) xs
Ahead-forward r x xs h = record {
  rest = drop-suc_of_drop r.offset _ x xs h.rest;
  held = omega (arith, h.held);
  small = h.small;
}

pub Reads-uint8 : (x : ℕ) → Reads read_uint8 (x ∷ []) x
unfolding read_uint8
Reads-uint8 x r rest h = (
  forward r,
  rw (Ahead-access r 1 (x ∷ rest) h (omega arith), load-elem r x rest h) refl,
  Ahead-forward r x rest h,
)

pub Reads-type : (h : ℕ) → Reads read_type (h ∷ []) (header_type h)
unfolding read_type
Reads-type h = Reads-map read_uint8 header_type (h ∷ []) h (Reads-uint8 h)

store-length_append :
    (pre : List ℕ) (y : ℕ) (ys : List ℕ) (x : ℕ)
    → store (pre ++ (y ∷ ys)) (length pre) x ≡ ok (pre ++ (x ∷ ys))
unfolding store
store-length_append pre y ys x =
    rw
      (
        lt→ltb (length pre) (length (pre ++ (y ∷ ys))) (omega (arith, length-append pre (y ∷ ys))),
        set-length_append pre y ys x,
      )
      refl

pub Reads-give_up :
    {A B : Type 0} (o : Result A) (k : A → Read B) (xs : List ℕ) (a : A) (b : B)
    → o ≡ ok a
    → Reads (k a) xs b
    → Reads (give_up o >>= k) xs b
Reads-give_up o k xs a b e p r rest h = rw e (p r rest h)

into_end : (v w : List ℕ) → v ≡ w → Reads (pure v) [] w
into_end v w e = subst (λ t. Reads (pure v) [] t) e (Reads-pure v)

into-at :
    (bytes pre tail : List ℕ) (i : ℕ) (v w : List ℕ)
    → i ≡ length pre
    → v ≡ pre ++ tail
    → pre ++ (bytes ++ drop (length bytes) tail) ≡ w
    → length bytes ≤ length tail
    → Reads (read_into (length bytes) i v) bytes w
unfolding read_into
into-at [] pre tail i v w ei ev ew h = into_end v w (ev ∙ ew)
into-at (x ∷ xs) pre [] i v w ei ev ew h = absurd (omega arith)
into-at (x ∷ xs) pre (y ∷ ys) i v w ei ev ew h =
    Reads-bind read_uint8
      (λ c. give_up (store v i c) >>= λ value. read_into (length xs) (i + 1) value) (x ∷ []) xs x w
      (Reads-uint8 x)
      (Reads-give_up (store v i x) (λ value. read_into (length xs) (i + 1) value) xs
        (pre ++ (x ∷ ys)) w (ap₂ (λ a n. store a n x) ev ei ∙ store-length_append pre y ys x)
        (into-at xs (pre ++ (x ∷ [])) ys (i + 1) (pre ++ (x ∷ ys)) w
          (omega (arith, length-append pre (x ∷ []))) (sym (append_assoc pre (x ∷ []) ys))
          (append_assoc pre (x ∷ []) (xs ++ drop (length xs) ys) ∙ ew) (omega arith)))

-- The bytes replace the first bytes of the value.
pub Reads-into :
    (bytes value : List ℕ)
    → length bytes ≤ length value
    → Reads (read_into (length bytes) 0 value) bytes (bytes ++ drop (length bytes) value)
Reads-into bytes value h = into-at bytes [] value 0 value _ refl refl refl h

-- A string, up to and with its NUL.
pub Reads-chars :
    (cs : List ℕ) (fuel : ℕ)
    → All (λ c. c ≢ 0) cs
    → length cs < fuel
    → Reads (read_chars fuel) (cs ++ (0 ∷ [])) cs
unfolding read_chars
Reads-chars cs zero v h = absurd (omega arith)
Reads-chars [] (suc fuel) v h =
    Reads-bind read_uint8 _ (0 ∷ []) [] 0 [] (Reads-uint8 0) (Reads-pure [])
Reads-chars (zero ∷ cs) (suc fuel) v h = absurd (v.0 refl)
Reads-chars (suc c ∷ cs) (suc fuel) v h =
    Reads-bind read_uint8 (chars_step (read_chars fuel)) (suc c ∷ []) (cs ++ (0 ∷ [])) (suc c)
      (suc c ∷ cs) (Reads-uint8 (suc c))
      (Reads-map (read_chars fuel) (λ ds. suc c ∷ ds) (cs ++ (0 ∷ [])) cs
        (Reads-chars cs fuel v.1 (omega arith)))

pub Reads-cstr : (cs : List ℕ) → All (λ c. c ≢ 0) cs → Reads read_cstr (cs ++ (0 ∷ [])) cs
unfolding read_cstr
Reads-cstr cs v r rest h =
    let room : length ((cs ++ (0 ∷ [])) ++ rest) ≡ length cs + 1 + length rest =
      omega (arith, length-append (cs ++ (0 ∷ [])) rest, length-append cs (0 ∷ [])) in
    rw (Ahead-access r 1 ((cs ++ (0 ∷ [])) ++ rest) h (omega arith))
      (Reads-chars cs (suc r.buffer.size) v (omega (arith, h.held)) r rest h)

-- What stands behind a pointer.
Ahead-skip :
    (r : Reader) (xs ys : List ℕ)
    → Ahead r (xs ++ ys)
    → Ahead (record r { offset = r.offset + length xs }) ys
Ahead-skip r xs ys h = record {
  rest =
      drop-add r.offset (length xs) (contents r.memory r.buffer)
      ∙ ap (drop (length xs)) h.rest
      ∙ drop-length_append xs ys;
  held = omega (arith, h.held, length-append xs ys);
  small = h.small;
}

skip_array-Ahead :
    (r : Reader) (xs ys : List ℕ)
    → Ahead r (xs ++ ys)
    → skip_array 1 (length xs) r ≡ ok (tt, record r { offset = r.offset + length xs })
unfolding skip_array
skip_array-Ahead r xs ys h = ground (arith, length-append xs ys, h.held, h.small)

Ahead-window :
    (r : Reader) (xs ys : List ℕ)
    → Ahead r (xs ++ ys)
    → take (length xs) (drop (r.buffer.start + r.offset) r.memory) ≡ xs
Ahead-window r xs ys h =
    ap (take (length xs)) (drop-add r.buffer.start r.offset r.memory)
    ∙ sym (
        take-drop-take (length xs) r.offset r.buffer.size (drop r.buffer.start r.memory)
          (omega (arith, h.held, length-append xs ys)))
    ∙ ap (take (length xs)) h.rest
    ∙ take-length_append xs ys

pub Reads-ptr :
    (b : BaseId) (bytes : List ℕ) → length bytes ≡ size_of b → Reads (read_ptr b) bytes bytes
unfolding read_ptr
Reads-ptr b bytes e r rest h = (
  record r { offset = r.offset + length bytes },
  rw
      (
        ← e,
        Ahead-access r (length bytes) (bytes ++ rest) h (omega (arith, length-append bytes rest)),
        skip_array-Ahead r bytes rest h,
        Ahead-window r bytes rest h,
      )
      refl,
  Ahead-skip r bytes rest h,
)

-- Where bytes are left there is more, and where none are there is not.
pub has_more-cons : (r : Reader) (x : ℕ) (xs : List ℕ) → Ahead r (x ∷ xs) → has_more r ≡ true
unfolding has_more
has_more-cons r x xs h = lt→ltb r.offset r.buffer.size (omega (arith, h.held))

pub has_more-nil : (r : Reader) → Ahead r [] → has_more r ≡ false
unfolding has_more
has_more-nil r h = le→ltb r.offset r.buffer.size (omega (arith, h.held))
