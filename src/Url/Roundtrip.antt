-- ===== src/Url/Roundtrip.antt =====
-- A URL is printed as it was parsed.
use libremo.Prelude.{
  ℕ, zero, suc, ◌+◌, ◌-◌, ◌≤◌, ◌<◌, ◌≡◌, ◌⊎◌, refl, sym, ap, ◌∙◌, List, [], ◌∷◌, ◌++◌, ltb,
  Bool-cases, inl, inr, Option, none, some, take, drop, length, take-append-drop, append-nil,
  append_assoc, take-length_append, drop-length_append, drop-add, arith, lt→ltb, le→ltb,
}
use native.Mathlib.Decide.{dec_lt}
use libremo.Error.{Result, ok}
use libremo.Url.{
  Chars, Url, proto_delim, dot, slash, find_char, find_string, at_most, protos, authority,
  with_proto, from_string, join_rest, join_proto, to_string,
}
use libremo.Url.Search.{
  Found, nowhere, somewhere, find_in-Found, FoundString, absent, present, find_string-Found,
}

take_past :
    (pre post : Chars) (c n : ℕ)
    → take (length pre + suc n) (pre ++ c ∷ post) ≡ pre ++ c ∷ take n post
take_past [] post c n =
    let shift : 0 + suc n ≡ suc n = omega arith in ap (λ k. take k (c ∷ post)) shift
take_past (x ∷ pre) post c n =
    let shift : length (x ∷ pre) + suc n ≡ suc (length pre + suc n) = omega arith in
    ap (λ k. take k (x ∷ pre ++ c ∷ post)) shift ∙ ap (λ l. x ∷ l) (take_past pre post c n)

drop_past : (pre post : Chars) (c : ℕ) → drop (length pre + 1) (pre ++ c ∷ post) ≡ post
drop_past pre post c =
    drop-add (length pre) 1 (pre ++ c ∷ post) ∙ ap (drop 1) (drop-length_append pre (c ∷ post))

-- The next dot, if it stands before position `i`.
abbrev Next : ℕ → ℕ → Chars → ℕ → Type 0
Next i l t r =
    (r ≡ i)
    ⊎ ((pre : Chars) × (post : Chars) × (t ≡ pre ++ dot ∷ post)
        × (r ≡ l + length pre)
        × (l + length pre < i))

at_most-Next : (i l : ℕ) (t : Chars) (o : Option ℕ) → Found dot l t o → Next i l t (at_most i o)
unfolding at_most
at_most-Next i l t none (nowhere _) = inl refl
at_most-Next i l _ (some r) (somewhere pre post _ e) = elim (Bool-cases (ltb i r)) [
  | inl k ↦ rw k (inl refl)
  | inr k ↦ rw k (elim (dec_lt r i) [
    | yes less ↦ inr (pre, post, refl, e, omega arith)
    | no more ↦ let above : r ≤ i = ground arith in inl (omega arith)
  ])
]

abbrev Joined : ℕ → ℕ → Chars → Result (List Chars) → Type 0
Joined i l s m =
    (p : Chars) × (ps : List Chars) × (m ≡ ok (p ∷ ps))
    × (p ++ join_rest ps ≡ take (i - l) (drop l s))

protos-last :
    (fuel i l : ℕ) (s : Chars)
    → at_most i (find_char dot l s) ≡ i
    → Joined i l s (protos (suc fuel) i l s)
unfolding protos join_rest
protos-last fuel i l s e = (
  take (i - l) (drop l s),
  [],
  rw (e, le→ltb i i (omega arith)) refl,
  append-nil (take (i - l) (drop l s)),
)

protos-next :
    (fuel i l : ℕ) (s pre post : Chars)
    → drop l s ≡ pre ++ dot ∷ post
    → at_most i (find_char dot l s) ≡ l + length pre
    → l + length pre < i
    → Joined i (l + length pre + 1) s (protos fuel i (l + length pre + 1) s)
    → Joined i l s (protos (suc fuel) i l s)
unfolding protos join_rest
protos-next fuel i l s pre post split e less (p, ps, run, joined) =
    let back : l + length pre - l ≡ length pre = omega arith in
    let behind : drop (l + length pre + 1) s ≡ post =
      ap (λ k. drop k s) (assoc l (length pre))
      ∙ drop-add l (length pre + 1) s
      ∙ ap (drop (length pre + 1)) split
      ∙ drop_past pre post dot in
    let n = i - (l + length pre + 1) in
    let total : length pre + suc n ≡ i - l = omega arith in
    (
      pre,
      p ∷ ps,
      rw (e, lt→ltb (l + length pre) i less, run, back, split, take-length_append pre (dot ∷ post))
          refl,
      ap (λ t. pre ++ dot ∷ t) (joined ∙ ap (take n) behind)
          ∙ sym (take_past pre post dot n)
          ∙ ap (λ k. take k (pre ++ dot ∷ post)) total
          ∙ ap (take (i - l)) (sym split),
    )
  where
    assoc : (a b : ℕ) → a + b + 1 ≡ a + (b + 1)
    assoc a b = omega arith

protos_lem : (fuel i l : ℕ) (s : Chars) → l ≤ i → i < l + fuel → Joined i l s (protos fuel i l s)
protos_lem zero i l s h f = absurd (omega arith)
protos_lem (suc fuel) i l s h f =
    elim (at_most-Next i l (drop l s) (find_char dot l s) (find_in-Found dot l (drop l s))) [
      | inl e ↦ protos-last fuel i l s e
      | inr (pre, post, split, e, less) ↦
          protos-next fuel i l s pre post split e less
            (protos_lem fuel i (l + length pre + 1) s (omega arith) (omega arith))
    ]

not_before :
    (c i : ℕ) (s : Chars) (o : Option ℕ)
    → Found c i s o
    → (o ≡ none) ⊎ ((j : ℕ) × (o ≡ some j) × (i ≤ j))
not_before c i s none f = inl refl
not_before c i _ (some r) (somewhere pre post _ e) = inr (r, refl, omega arith)

-- The host and the path are the characters behind the protocols.
authority_lem :
    (o : Option ℕ) (i : ℕ) (s : Chars) (u : Url)
    → (o ≡ none) ⊎ ((j : ℕ) × (o ≡ some j) × (i ≤ j))
    → (authority o i s u).host ++ (authority o i s u).path ≡ drop i s
unfolding authority
authority_lem o i s u (inl e) = rw e (append-nil (drop i s))
authority_lem o i s u (inr (j, e, h)) =
    let back : i + (j - i) ≡ j = omega arith in
    rw e (
      ap (λ k. take (j - i) (drop i s) ++ drop k s) (sym back)
      ∙ ap (λ t. take (j - i) (drop i s) ++ t) (drop-add i (j - i) s)
      ∙ take-append-drop (j - i) (drop i s))

authority-proto : (o : Option ℕ) (i : ℕ) (s : Chars) (u : Url) → (authority o i s u).proto ≡ u.proto
unfolding authority
authority-proto none i s u = refl
authority-proto (some j) i s u = refl

printed :
    (ps : List Chars) (i : ℕ) (s : Chars) (u : Url)
    → u.proto ≡ ps
    → to_string (authority (find_char slash i s) i s u) ≡ join_proto ps ++ drop i s
unfolding to_string
printed ps i s u e =
    let o = find_char slash i s in
    ap (λ qs. join_proto qs ++ ((authority o i s u).host ++ (authority o i s u).path))
      (authority-proto o i s u ∙ e)
    ∙ ap (λ t. join_proto ps ++ t)
        (authority_lem o i s u (not_before slash i (drop i s) o (find_in-Found slash i (drop i s))))

with_proto_lem :
    (o : Option ℕ) (s : Chars) (u : Url)
    → FoundString proto_delim 0 s o
    → (v : Url) × (with_proto o s u ≡ ok v) × (to_string v ≡ s)
unfolding with_proto join_proto
with_proto_lem none s u (absent _) = (
  authority (find_char slash 0 s) 0 s (record u { proto = [] }),
  refl,
  printed [] 0 s (record u { proto = [] }) refl,
)
with_proto_lem (some i) _ u (present pre post _ e) =
    let s : Chars = pre ++ (proto_delim ++ post) in
    let k = i + 3 in
    let (p, ps, run, joined) = protos_lem (i + 1) i 0 s (omega arith) (omega arith) in
    let w : Url = record u { proto = p ∷ ps } in
    let i-eq : i - 0 ≡ length pre = omega arith in
    let k-eq : k ≡ length pre + 3 = omega arith in
    let front : p ++ join_rest ps ≡ pre =
      joined ∙ ap (λ n. take n s) i-eq ∙ take-length_append pre (proto_delim ++ post) in
    let behind : drop k s ≡ post =
      ap (λ n. drop n s) k-eq
      ∙ drop-add (length pre) 3 s
      ∙ ap (drop 3) (drop-length_append pre (proto_delim ++ post)) in
    (
      authority (find_char slash k s) k s w,
      rw run refl,
      printed (p ∷ ps) k s w refl
          ∙ ap (λ t. ((p ++ join_rest ps) ++ proto_delim) ++ t) behind
          ∙ ap (λ t. (t ++ proto_delim) ++ post) front
          ∙ append_assoc pre proto_delim post,
    )

-- Every string is parsed, and the URL is printed as the string that it was parsed from, whatever
-- the URL was before.
pub to_string-from_string :
    (s : Chars) (u : Url) → (v : Url) × (from_string s u ≡ ok v) × (to_string v ≡ s)
unfolding from_string
to_string-from_string s u =
    with_proto_lem (find_string proto_delim 0 s) s u (find_string-Found proto_delim 0 s)
