-- ===== src/Dump/Ending.antt =====
-- The text of an arbitrary packet: the loops over its bytes come to an end.
use libremo.Prelude.{
  ℕ, zero, suc, ◌+◌, ◌≤◌, ◌<◌, ◌≡◌, refl, ◌∙◌, List, [], ◌∷◌, ◌++◌, ◌==◌, arith, length, ltb,
  Bool-cases, inl, inr, set, codes,
}
use native.Mathlib.Decide.{dec_lt}
use libremo.Error.{Result, ok, error, fault, timeout}
use libremo.Types.{
  BaseId, TypeId, plain, pointer, type_uint8, type_uint16, type_uint32, type_uint64, type_int8,
  type_int16, type_int32, type_int64, type_bool, type_cstr, type_double, type_float, size_of,
  not_same,
}
use libremo.Buffer.{store}
use libremo.Packet.{packet_call, packet_result}
use libremo.Reader.{
  Reader, Read, ◌>>=◌, and_then, pure, give_up, read_uint8, read_type, read_into, read_value,
  read_cstr, read_chars, has_more, zeros, header_type,
}
use libremo.Reader.Safety.{
  IsSafe, Lands, Lands-chars, forward-IsSafe, read_uint8-inside, read_uint8-outside, access-inside,
  access-outside,
}
use libremo.Dump.{
  value_text, type_label, bool_text, any_set, format_scalar, format_cstr, format_by_type,
  format_value, format_values, format_call, format_result, format_packet, to_string, function_text,
  comma,
}

-- No loop runs on for ever, and where there is a value the reader stands at least `n` bytes further.
abbrev pub Ends : {A : Type 0} → ℕ → Reader → Result (A × Reader) → Type 0
Ends n r (ok (a, r')) = IsSafe r' × (r'.buffer.size ≡ r.buffer.size) × (r.offset + n ≤ r'.offset)
Ends n r (error e) = Unit {0}
Ends n r fault = Unit {0}
Ends n r timeout = ⊥

Lands-Ends : {A : Type 0} (r : Reader) (o : Result (A × Reader)) → Lands r o → Ends 0 r o
Lands-Ends r (ok (a, r1)) (s, e, h) = (s, e, omega arith)
Lands-Ends r (error c) h = tt
Lands-Ends r fault h = tt
Lands-Ends r timeout h = h

widen :
    {A : Type 0} (n : ℕ) (r r1 : Reader) (o : Result (A × Reader))
    → r1.buffer.size ≡ r.buffer.size
    → r.offset + n ≤ r1.offset
    → Ends 0 r1 o
    → Ends n r o
widen n r r1 (ok (a, r2)) e h (s, e2, h2) = (s, e2 ∙ e, omega arith)
widen n r r1 (error c) e h l = tt
widen n r r1 fault e h l = tt
widen n r r1 timeout e h l = l

Ends-then :
    {A B : Type 0} (n : ℕ) (r : Reader) (o : Result (A × Reader)) (k : A → Read B)
    → Ends n r o
    → ((a : A) (r1 : Reader)
        → IsSafe r1
        → r1.buffer.size ≡ r.buffer.size
        → r.offset + n ≤ r1.offset
        → Ends 0 r1 (k a r1))
    → Ends n r (and_then o k)
Ends-then n r (ok (a, r1)) k (s, e, h) next = widen n r r1 (k a r1) e h (next a r1 s e h)
Ends-then n r (error c) k l next = tt
Ends-then n r fault k l next = tt
Ends-then n r timeout k l next = absurd l

Ends-pure : {A : Type 0} (a : A) (r : Reader) → IsSafe r → Ends 0 r (pure a r)
Ends-pure a r s = (s, refl, omega arith)

-- A read that goes on with a pure function of what it read.
Ends-map :
    {A B : Type 0} (n : ℕ) (r : Reader) (o : Result (A × Reader)) (f : A → B)
    → Ends n r o
    → Ends n r (and_then o (λ a. pure (f a)))
Ends-map n r o f h = Ends-then n r o (λ a. pure (f a)) h (λ a r1 s e l. Ends-pure (f a) r1 s)

Ends-weaken : {A : Type 0} (r : Reader) (o : Result (A × Reader)) → Ends 1 r o → Ends 0 r o
Ends-weaken r (ok (a, r1)) (s, e, h) = (s, e, omega arith)
Ends-weaken r (error c) h = tt
Ends-weaken r fault h = tt
Ends-weaken r timeout h = h

Ends-uint8 : (r : Reader) → IsSafe r → Ends 1 r (read_uint8 r)
Ends-uint8 r s = elim (dec_lt r.offset r.buffer.size) [
  | yes h ↦
      let (x, e, f) = read_uint8-inside r s h in rw f (forward-IsSafe r s h, refl, omega arith)
  | no h ↦ rw (read_uint8-outside r s (omega arith)) tt
]

Ends-into :
    (rounds i : ℕ) (value : List ℕ) (r : Reader) → IsSafe r → Ends 0 r (read_into rounds i value r)
unfolding read_into store
Ends-into zero i value r s = Ends-pure value r s
Ends-into (suc rounds) i value r s = widen 0 r r _ refl (omega arith) (
    Ends-then 0 r (read_uint8 r)
      (λ x. give_up (store value i x) >>= λ value'. read_into rounds (i + 1) value')
      (Ends-weaken r (read_uint8 r) (Ends-uint8 r s))
      λ x r1 s1 e1 h1. stored x r1 s1 (λ v. Ends-into rounds (i + 1) v r1 s1))
  where
    stored :
        (x : ℕ) (q : Reader)
        → IsSafe q
        → ((v : List ℕ) → Ends 0 q (read_into rounds (i + 1) v q))
        → Ends 0 q (and_then (give_up (store value i x) q) (λ v. read_into rounds (i + 1) v))
    stored x q t next = elim (Bool-cases (ltb i (length value))) [
      | inl e ↦ rw e (next (set value i x))
      | inr e ↦ rw e tt
    ]

Ends-cstr : (r : Reader) → IsSafe r → Ends 0 r (read_cstr r)
unfolding read_cstr
Ends-cstr r s = elim (dec_lt r.offset r.buffer.size) [
  | yes h ↦ rw (access-inside r 1 s (omega arith) (omega arith)) (
      Lands-Ends r (read_chars (suc r.buffer.size) r)
        (Lands-chars (suc r.buffer.size) r s (omega arith)))
  | no h ↦ rw (access-outside r 1 s (omega arith) (omega arith)) tt
]

module _ (float_text : BaseId → List ℕ → List ℕ) where
  scalar-Ends :
      (t : TypeId) (b : BaseId) (k : ℕ) (r : Reader)
      → IsSafe r
      → Ends 0 r (format_scalar float_text t b k r)
  unfolding format_scalar read_value
  scalar-Ends t b k r s =
      Ends-map 0 r (read_into k 0 (zeros (size_of b)) r)
        (λ bytes. type_label t ++ value_text float_text b bytes)
        (Ends-into k 0 (zeros (size_of b)) r s)

  cstr-Ends : (r : Reader) → IsSafe r → Ends 0 r (format_cstr float_text r)
  unfolding format_cstr
  cstr-Ends r s =
      Ends-map 0 r (read_cstr r) (λ chars. b'"' ∷ (chars ++ (b'"' ∷ []))) (Ends-cstr r s)

  bool_ptr-Ends :
      (k : ℕ) (r : Reader) → IsSafe r → Ends 0 r (format_by_type float_text (pointer type_bool) k r)
  unfolding format_by_type read_value
  bool_ptr-Ends k r s =
      Ends-map 0 r (read_into k 0 (zeros (size_of type_int64)) r)
        (λ bytes. type_label (pointer type_bool) ++ bool_text (any_set bytes))
        (Ends-into k 0 (zeros (size_of type_int64)) r s)

  by_type-Ends :
      (t : TypeId) (k : ℕ) (r : Reader) → IsSafe r → Ends 0 r (format_by_type float_text t k r)
  unfolding format_by_type
  by_type-Ends (plain type_uint8) k r s = scalar-Ends _ type_uint8 k r s
  by_type-Ends (plain type_uint16) k r s = scalar-Ends _ type_uint16 k r s
  by_type-Ends (plain type_uint32) k r s = scalar-Ends _ type_uint32 k r s
  by_type-Ends (plain type_uint64) k r s = scalar-Ends _ type_uint64 k r s
  by_type-Ends (plain type_int8) k r s = scalar-Ends _ type_int8 k r s
  by_type-Ends (plain type_int16) k r s = scalar-Ends _ type_int16 k r s
  by_type-Ends (plain type_int32) k r s = scalar-Ends _ type_int32 k r s
  by_type-Ends (plain type_int64) k r s = scalar-Ends _ type_int64 k r s
  by_type-Ends (plain type_double) k r s = scalar-Ends _ type_double k r s
  by_type-Ends (plain type_float) k r s = scalar-Ends _ type_float k r s
  by_type-Ends (plain type_cstr) k r s = cstr-Ends r s
  by_type-Ends (pointer type_uint8) k r s = scalar-Ends _ type_uint8 k r s
  by_type-Ends (pointer type_uint16) k r s = scalar-Ends _ type_uint16 k r s
  by_type-Ends (pointer type_uint32) k r s = scalar-Ends _ type_uint32 k r s
  by_type-Ends (pointer type_uint64) k r s = scalar-Ends _ type_uint64 k r s
  by_type-Ends (pointer type_int8) k r s = scalar-Ends _ type_int8 k r s
  by_type-Ends (pointer type_int16) k r s = scalar-Ends _ type_int16 k r s
  by_type-Ends (pointer type_int32) k r s = scalar-Ends _ type_int32 k r s
  by_type-Ends (pointer type_int64) k r s = scalar-Ends _ type_int64 k r s
  by_type-Ends (pointer type_double) k r s = scalar-Ends _ type_double k r s
  by_type-Ends (pointer type_float) k r s = scalar-Ends _ type_float k r s
  by_type-Ends (pointer type_cstr) k r s = cstr-Ends r s
  by_type-Ends (pointer type_bool) k r s = bool_ptr-Ends k r s
  by_type-Ends _ k r s = (s, refl, omega arith)

  value-Ends : (r : Reader) → IsSafe r → Ends 1 r (format_value float_text r)
  unfolding format_value read_type
  value-Ends r s =
      Ends-then 1 r (read_type r) (λ tm. format_by_type float_text tm.0 tm.1)
        (Ends-map 1 r (read_uint8 r) header_type (Ends-uint8 r s))
        (λ tm r1 s1 e1 h1. by_type-Ends tm.0 tm.1 r1 s1)

  values-Ends :
      (fuel : ℕ) (r : Reader)
      → IsSafe r
      → r.buffer.size < r.offset + fuel
      → Ends 0 r (format_values float_text fuel r)
  unfolding format_values
  values-Ends zero r s h = absurd (omega (arith, s.within))
  values-Ends (suc fuel) r s h = elim (Bool-cases (has_more r)) [
    | inr e ↦ rw (e, format_values) (Ends-pure {A = List ℕ} [] r s)
    | inl e ↦
        rw (e, format_values)
          (Ends-weaken r _ (
            Ends-then 1 r (format_value float_text r) _ (value-Ends r s) λ v r1 s1 e1 h1.
              Ends-map 0 r1 (format_values float_text fuel r1)
                (λ rest. v ++ (comma float_text r1 ++ rest))
                (values-Ends fuel r1 s1 (omega arith))))
  ]

  all_values-Ends :
      (r : Reader) → IsSafe r → Ends 0 r (format_values float_text (suc r.buffer.size) r)
  all_values-Ends r s = values-Ends (suc r.buffer.size) r s (omega arith)

  function-Ends : (t : TypeId) (r : Reader) → IsSafe r → Ends 0 r (function_text float_text t r)
  unfolding function_text
  function-Ends t r s = elim (Bool-cases (not_same t (plain type_cstr))) [
    | inl e ↦ rw e (Ends-pure (codes "???") r s)
    | inr e ↦ rw e (Ends-cstr r s)
  ]

  call-Ends : (r : Reader) → IsSafe r → Ends 0 r (format_call float_text r)
  unfolding format_call read_type
  call-Ends r s =
      Ends-then 0 r (read_type r) _
        (Ends-weaken r _ (Ends-map 1 r (read_uint8 r) header_type (Ends-uint8 r s)))
        λ tm r1 s1 e1 h1.
          Ends-then 0 r1 (function_text float_text tm.0 r1) _ (function-Ends tm.0 r1 s1)
            λ function r2 s2 e2 h2.
              Ends-map 0 r2 (format_values float_text (suc r2.buffer.size) r2)
                (λ args. function ++ (b'(' ∷ (args ++ (b')' ∷ [])))) (all_values-Ends r2 s2)

  result-Ends : (r : Reader) → IsSafe r → Ends 0 r (format_result float_text r)
  unfolding format_result
  result-Ends r s =
      Ends-then 0 r (format_value float_text r) _ (Ends-weaken r _ (value-Ends r s))
        λ v r1 s1 e1 h1.
          Ends-map 0 r1 (format_values float_text (suc r1.buffer.size) r1)
            (λ outs. v ++ (codes " (" ++ (outs ++ (b')' ∷ [])))) (all_values-Ends r1 s1)

  packet-Ends : (k : ℕ) (r : Reader) → IsSafe r → Ends 0 r (format_packet float_text k r)
  unfolding format_packet
  packet-Ends k r s = elim (Bool-cases (k == packet_call)) [
    | inl e ↦
        rw e
          (Ends-map 0 r (format_call float_text r) (λ text. codes "call: " ++ text) (call-Ends r s))
    | inr e ↦ elim (Bool-cases (k == packet_result)) [
      | inl f ↦
          rw (e, f)
            (Ends-map 0 r (format_result float_text r) (λ text. codes "result: " ++ text)
              (result-Ends r s))
      | inr f ↦ rw (e, f) (s, refl, omega arith)
    ]
  ]

  -- Whatever the bytes of a packet are, its text comes to an end: there is a text, an exception or
  -- an access outside of an object, but no loop that runs on; the reader stays inside its buffer.
  pub to_string-Ends : (r : Reader) → IsSafe r → Ends 0 r (to_string float_text r)
  unfolding to_string
  to_string-Ends r s = elim (Bool-cases (ltb 0 r.buffer.size)) [
    | inl e ↦ rw e (
        Ends-then 0 r (read_uint8 r) (format_packet float_text) (Ends-weaken r _ (Ends-uint8 r s))
          (λ k r1 s1 e1 h1. packet-Ends k r1 s1))
    | inr e ↦ rw e (Ends-pure (codes "(empty packet)") r s)
  ]
