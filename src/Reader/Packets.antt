-- ===== src/Reader/Packets.antt =====
-- Whole packets: the reader takes a call and a result back as the writer emitted them.
use libremo.Prelude.{
  ℕ, zero, suc, ◌≤◌, ◌<◌, ◌≡◌, refl, sym, ap, subst, ◌∙◌, true, false, not, List, [], ◌∷◌, ◌++◌,
  append-nil, append_assoc, arith, length, length-append, drop, drop_all, All, ◌≢◌, map,
  if◌then◌else◌, ==_refl, Bool-cases, inl, inr,
}
use libremo.Error.{ok}
use libremo.Types.{
  BaseId, TypeId, plain, pointer, type_cstr, type_code, get_type_size, size_of, not_same,
}
use libremo.Packet.{packet_call, packet_result}
use libremo.Writer.{Arg, scalar, flag, string, ptr, arraysize}
use libremo.Writer.Encoding.{encode_scalar, encode_arg, encode_args, encode_call}
use libremo.Writer.Results.{
  Value, typed_of_arg, typed_of, encode_value, encode_outparams, encode_result, is_ptr_arg,
}
use libremo.Reader.{
  Reader, ◌>>=◌, pure, give_up, read_type, header_type, read_into, read_args, read_call,
  read_outparam, read_outparams, read_result, check_param_type, has_more,
}
use libremo.Reader.Reads.{
  Ahead, Reads, Reads-pure, Reads-bind, Reads-map, Reads-uint8, Reads-type, Reads-into, Reads-cstr,
  Reads-give_up, has_more-cons, has_more-nil,
}
use libremo.Reader.Decoding.{
  IsPortable, IsPortableValue, Reads-arg, Reads-typed, header-pointer, header-plain,
}

-- Every argument takes a byte at least.
encode_arg-cons : (a : Arg) → IsPortable a → (x : ℕ) × (xs : List ℕ) × (encode_arg a ≡ x ∷ xs)
unfolding encode_arg encode_scalar
encode_arg-cons (scalar b bytes) v = (_, _, refl)
encode_arg-cons (flag x) v = (_, _, refl)
encode_arg-cons (string cs) v = (_, _, refl)
encode_arg-cons (ptr b bytes) v = (_, _, refl)
encode_arg-cons (arraysize n) v = absurd v

pub length-encode_args :
    (args : List Arg) → All IsPortable args → length args ≤ length (encode_args args)
unfolding encode_args
length-encode_args [] v = omega arith
length-encode_args (a ∷ rest) v =
    let (x, xs, e) = encode_arg-cons a v.0 in
    omega (
      arith,
      length-append (encode_arg a) (encode_args rest),
      ap length e,
      length-encode_args rest v.1,
    )

pub has_more-arg :
    (a : Arg) (rest : List ℕ) (r : Reader)
    → IsPortable a
    → Ahead r (encode_arg a ++ rest)
    → has_more r ≡ true
has_more-arg a rest r v h =
    let (x, xs, e) = encode_arg-cons a v in
    has_more-cons r x (xs ++ rest) (subst (λ ys. Ahead r (ys ++ rest)) e h)

-- The loop over the arguments ends with the buffer.
pub read_args-Reads :
    (args : List Arg) (fuel : ℕ) (r : Reader)
    → All IsPortable args
    → length args < fuel
    → Ahead r (encode_args args)
    → (r' : Reader) × (read_args fuel r ≡ ok (map typed_of_arg args, r')) × Ahead r' []
unfolding read_args encode_args
read_args-Reads args zero r v l h = absurd (omega arith)
read_args-Reads [] (suc fuel) r v l h = (r, rw (has_more-nil r h, read_args) refl, h)
read_args-Reads (a ∷ rest) (suc fuel) r v l h =
    let (r1, e1, h1) = Reads-arg a v.0 r (encode_args rest) h in
    let (r2, e2, h2) = read_args-Reads rest fuel r1 v.1 (omega arith) h1 in
    (r2, rw (has_more-arg a (encode_args rest) r v.0 h, read_args, e1, e2) refl, h2)

pub same-not : (t : TypeId) → not_same t t ≡ false
unfolding not_same
same-not t = ap not (==_refl (type_code t))

pub head_type :
    (h k : ℕ) (t : TypeId) (e : header_type h ≡ (t, k)) → Reads read_type (h ∷ []) (t, k)
head_type h k t e = subst (λ tm. Reads read_type (h ∷ []) tm) e (Reads-type h)

-- The bytes of a call give its name and its arguments back.
pub read_call_lem :
    (function : List ℕ) (args : List Arg) (r : Reader)
    → All (λ c. c ≢ 0) function
    → All IsPortable args
    → Ahead r (encode_call function args)
    → (r' : Reader) × (read_call r ≡ ok ((function, map typed_of_arg args), r')) × Ahead r' []
unfolding read_call encode_call encode_arg
read_call_lem function args r hf ha h =
    let name : List ℕ = function ++ (0 ∷ []) in
    let (r1, e1, h1) = Reads-uint8 packet_call r (0x0C ∷ (name ++ encode_args args)) h in
    let (r2, e2, h2) =
      head_type 0x0C 0 (plain type_cstr) (header-plain type_cstr 0 (omega arith)) r1
        (name ++ encode_args args) h1 in
    let (r3, e3, h3) = Reads-cstr function hf r2 (encode_args args) h2 in
    let fits : length args < suc r3.buffer.size =
      omega (arith, h3.held, length-encode_args args ha) in
    let (r4, e4, h4) = read_args-Reads args (suc r3.buffer.size) r3 ha fits h3 in
    (r4, rw (e1, e2, same-not (plain type_cstr), e3, e4) refl, h4)

-- The caller's argument with what the callee left behind the pointer.
unfoldable pub updated : Arg → Arg → Arg
updated (ptr b old) (ptr c new) = ptr b new
updated a c = a

unfoldable pub updated_args : List Arg → List Arg → List Arg
unfolding updated
updated_args (a ∷ as') (c ∷ cs) = updated a c ∷ updated_args as' cs
updated_args as' cs = as'

-- Both sides agree on which arguments are pointers, and on what they lead to.
abbrev pub SameShape : Arg → Arg → Type 0
SameShape (ptr b old) (ptr c new) = (b ≡ c) × (length old ≡ size_of b)
SameShape (ptr b old) _ = ⊥
SameShape _ (ptr c new) = ⊥
SameShape _ _ = Unit {0}

abbrev pub SameShapes : List Arg → List Arg → Type 0
SameShapes [] [] = Unit {0}
SameShapes (a ∷ as') (c ∷ cs) = SameShape a c × SameShapes as' cs
SameShapes _ _ = ⊥

check-same : (t : TypeId) → check_param_type t t ≡ ok tt
unfolding check_param_type
check-same t = rw (same-not t)

pub overwritten :
    (n : ℕ) (old new : List ℕ) → length old ≡ n → length new ≡ n → Reads (read_into n 0 old) new new
overwritten n old new ho hn =
    let whole : new ++ drop (length new) old ≡ new =
      ap (λ ys. new ++ ys) (drop_all (length new) old (omega arith)) ∙ append-nil new in
    subst (λ k. Reads (read_into k 0 old) new new) hn
      (subst (λ v. Reads (read_into (length new) 0 old) new v) whole
        (Reads-into new old (omega arith)))

outparam-ptr :
    (b : BaseId) (old new : List ℕ)
    → length old ≡ size_of b
    → length new ≡ size_of b
    → Reads (read_outparam (ptr b old)) (type_code (pointer b) ∷ new) (ptr b new)
unfolding read_outparam
outparam-ptr b old new ho hn =
    Reads-bind read_type
      (λ tm. give_up (check_param_type tm.0 (pointer b)) >>= λ _.
        read_into (size_of b) 0 old >>= λ bytes. pure (ptr b bytes))
      (type_code (pointer b) ∷ []) new (pointer b, get_type_size (plain b)) (ptr b new)
      (head_type (type_code (pointer b)) (get_type_size (plain b)) (pointer b) (header-pointer b))
      (Reads-give_up (check_param_type (pointer b) (pointer b))
        (λ _. read_into (size_of b) 0 old >>= λ bytes. pure (ptr b bytes)) new tt (ptr b new)
        (check-same (pointer b))
        (Reads-map (read_into (size_of b) 0 old) (ptr b) new new
          (overwritten (size_of b) old new ho hn)))

outparam-Reads :
    (a c : Arg)
    → SameShape a c
    → IsPortable c
    → Reads (read_outparam a) (if is_ptr_arg c then encode_arg c else []) (updated a c)
unfolding read_outparam updated encode_arg
outparam-Reads (ptr b old) (ptr c new) s v =
    subst (λ t. Reads (read_outparam (ptr b old)) (type_code (pointer t) ∷ new) (ptr b new)) s.0
      (outparam-ptr b old new s.1 (v.1 ∙ ap size_of (sym s.0)))
outparam-Reads (ptr b old) (scalar c bytes) s v = absurd s
outparam-Reads (ptr b old) (flag x) s v = absurd s
outparam-Reads (ptr b old) (string cs) s v = absurd s
outparam-Reads (ptr b old) (arraysize n) s v = absurd s
outparam-Reads (scalar b bytes) (ptr c new) s v = absurd s
outparam-Reads (flag x) (ptr c new) s v = absurd s
outparam-Reads (string cs) (ptr c new) s v = absurd s
outparam-Reads (arraysize n) (ptr c new) s v = absurd s
outparam-Reads (scalar b bytes) _ s v = Reads-pure (scalar b bytes)
outparam-Reads (flag x) _ s v = Reads-pure (flag x)
outparam-Reads (string cs) _ s v = Reads-pure (string cs)
outparam-Reads (arraysize n) _ s v = Reads-pure (arraysize n)

encode_outparams-cons :
    (c : Arg) (cs : List Arg)
    → encode_outparams (c ∷ cs) ≡ (if is_ptr_arg c then encode_arg c else []) ++ encode_outparams cs
unfolding encode_outparams
encode_outparams-cons c cs = elim (Bool-cases (is_ptr_arg c)) [
  | inl e ↦ rw e refl
  | inr e ↦ rw e refl
]

outparams-Reads :
    (args cs : List Arg)
    → SameShapes args cs
    → All IsPortable cs
    → Reads (read_outparams args) (encode_outparams cs) (updated_args args cs)
unfolding read_outparams encode_outparams updated_args
outparams-Reads [] [] s v = Reads-pure []
outparams-Reads [] (c ∷ cs) s v = absurd s
outparams-Reads (a ∷ rest) [] s v = absurd s
outparams-Reads (a ∷ rest) (c ∷ cs) s v =
    subst (λ ys. Reads (read_outparams (a ∷ rest)) ys (updated a c ∷ updated_args rest cs))
      (sym (encode_outparams-cons c cs))
      (Reads-bind (read_outparam a) _ (if is_ptr_arg c then encode_arg c else [])
        (encode_outparams cs) (updated a c) (updated a c ∷ updated_args rest cs)
        (outparam-Reads a c s.0 v.0)
        (Reads-map (read_outparams rest) (λ ys. updated a c ∷ ys) (encode_outparams cs)
          (updated_args rest cs) (outparams-Reads rest cs s.1 v.1)))

-- The bytes of a result give the result back, and the caller's arguments with the callee's out
-- parameters.
pub read_result-Reads :
    (v : Value) (args cs : List Arg)
    → IsPortableValue v
    → SameShapes args cs
    → All IsPortable cs
    → Reads (read_result args) (encode_result v cs) (typed_of v, updated_args args cs)
unfolding read_result encode_result
read_result-Reads v args cs hv s hc r rest h =
    let outs = encode_outparams cs in
    let (r1, e1, h1) = Reads-uint8 packet_result r ((encode_value v ++ outs) ++ rest) h in
    let (r2, e2, h2) =
      Reads-typed v hv r1 (outs ++ rest)
        (subst (Ahead r1) (append_assoc (encode_value v) outs rest) h1) in
    let (r3, e3, h3) = outparams-Reads args cs s hc r2 rest h2 in (r3, rw (e1, e2, e3) refl, h3)
