-- ===== src/Rpc/Item/Calls.antt =====
-- What the checks in front of a call let through.
use libremo.Prelude.{
  ℕ, suc, ◌≡◌, ◌≢◌, refl, sym, ap, subst, ◌∙◌, true, false, List, [], ◌∷◌, ◌++◌, ◌==◌, map, arith,
  length, length-append, get_elem?, some, ==_refl, ==_iff, Bool-cases, inl, inr, append_assoc,
  append-nil,
}
use libremo.Error.{ok, error, err_param_num_mismatch, err_param_type_mismatch}
use libremo.Types.{TypedValue, TypeId, not_same, check_type, type_code}
use libremo.Rpc.Item.{Function, check_types, check_args, next, next_args, dynamic_call, call_item}

-- The wire codes of the arguments' types, which is what types are compared by.
abbrev pub codes_of : List TypedValue → List ℕ
codes_of args = map (λ a. type_code a.type) args

length-map_codes : (args : List TypedValue) → length (codes_of args) ≡ length args
length-map_codes [] = refl
length-map_codes (a ∷ args) = ap suc (length-map_codes args)

length-map_types : (ts : List TypeId) → length (map type_code ts) ≡ length ts
length-map_types [] = refl
length-map_types (t ∷ ts) = ap suc (length-map_types ts)

pub codes-length :
    (ts : List TypeId) (args : List TypedValue)
    → codes_of args ≡ map type_code ts
    → length ts ≡ length args
codes-length ts args e = omega (arith, ap length e, length-map_codes args, length-map_types ts)

head-eq : (x y : ℕ) (xs ys : List ℕ) → (x ∷ xs) ≡ (y ∷ ys) → (x ≡ y) × (xs ≡ ys)
head-eq x y xs ys e = (cc, cc)

not_same-false : (a b : TypeId) → type_code a ≡ type_code b → not_same a b ≡ false
unfolding not_same
not_same-false a b e = rw (e, ==_refl (type_code b)) refl

check_types-eq_ok :
    (ts : List TypeId) (args : List TypedValue)
    → codes_of args ≡ map type_code ts
    → check_types ts args ≡ ok tt
unfolding check_types
check_types-eq_ok [] args e = refl
check_types-eq_ok (t ∷ ts) [] e = cc
check_types-eq_ok (t ∷ ts) (a ∷ args) e =
    let (h, r) = head-eq _ _ _ _ e in rw (not_same-false a.type t h) (check_types-eq_ok ts args r)

cons-eq : (x y : ℕ) (xs ys : List ℕ) → (x == y) ≡ true → xs ≡ ys → (x ∷ xs) ≡ (y ∷ ys)
cons-eq x y xs ys e r = let h : x ≡ y = (==_iff x y).0 e in cc

check_types-mismatch :
    (ts : List TypeId) (args : List TypedValue)
    → length ts ≡ length args
    → codes_of args ≢ map type_code ts
    → check_types ts args ≡ error err_param_type_mismatch
unfolding check_types not_same
check_types-mismatch [] [] e ne = absurd (ne refl)
check_types-mismatch [] (a ∷ args) e ne = absurd (omega arith)
check_types-mismatch (t ∷ ts) [] e ne = absurd (omega arith)
check_types-mismatch (t ∷ ts) (a ∷ args) e ne =
    elim (Bool-cases (type_code a.type == type_code t)) [
      | inl same ↦
          rw same (check_types-mismatch ts args (omega arith) (λ r. ne (cons-eq _ _ _ _ same r)))
      | inr differ ↦ rw differ refl
    ]

get_elem?-middle :
    (pre : List TypedValue) (a : TypedValue) (rest : List TypedValue)
    → get_elem? (pre ++ (a ∷ rest)) (length pre) ≡ some a
get_elem?-middle [] a rest = refl
get_elem?-middle (x ∷ pre) a rest = get_elem?-middle pre a rest

next-middle :
    (pre : List TypedValue) (a : TypedValue) (rest : List TypedValue)
    → next (pre ++ (a ∷ rest)) (suc (length pre)) ≡ ok (a, length pre)
unfolding next
next-middle pre a rest = rw (get_elem?-middle pre a rest, next) refl

check_type-same :
    (v : TypedValue) (t : TypeId) → type_code v.type ≡ type_code t → check_type v t ≡ ok tt
unfolding check_type
check_type-same v t e = rw (not_same-false t v.type (sym e)) refl

one-more : (pre : List TypedValue) (a : TypedValue) → length (pre ++ (a ∷ [])) ≡ suc (length pre)
one-more pre a = omega (arith, length-append pre (a ∷ []))

-- Taken from the last to the first, the arguments are still in order.
next_args-behind :
    (ts : List TypeId) (pre args : List TypedValue)
    → codes_of args ≡ map type_code ts
    → next_args ts (pre ++ args) ≡ ok (args, length pre)
unfolding next_args
next_args-behind [] pre [] e = rw (append-nil pre) refl
next_args-behind [] pre (a ∷ args) e = cc
next_args-behind (t ∷ ts) pre [] e = cc
next_args-behind (t ∷ ts) pre (a ∷ args) e =
    let (h, r) = head-eq _ _ _ _ e in
    let rest : next_args ts (pre ++ (a ∷ args)) ≡ ok (args, suc (length pre)) =
      subst (λ xs. next_args ts xs ≡ ok (args, suc (length pre))) (append_assoc pre (a ∷ []) args)
        (next_args-behind ts (pre ++ (a ∷ [])) args r ∙ ap (λ n. ok (args, n)) (one-more pre a)) in
    rw (rest, next-middle pre a args, check_type-same a t h) refl

pub dynamic_call-eq :
    (f : Function) (args : List TypedValue)
    → codes_of args ≡ map type_code f.param_types
    → dynamic_call f args ≡ f.body args
unfolding dynamic_call
dynamic_call-eq f args e = rw (next_args-behind f.param_types [] args e) refl

-- A call with as many arguments as there are parameters, each with the type of its parameter,
-- passes the arguments to the function in order; with another number it throws
-- ERR_PARAM_NUM_MISMATCH, and with this number but another type ERR_PARAM_TYPE_MISMATCH.
pub call_item_lem :
    (f : Function) (args : List TypedValue)
    → (codes_of args ≡ map type_code f.param_types → call_item f args ≡ f.body args)
      × (length f.param_types ≢ length args → call_item f args ≡ error err_param_num_mismatch)
      × (length f.param_types ≡ length args
          → codes_of args ≢ map type_code f.param_types
          → call_item f args ≡ error err_param_type_mismatch)
unfolding call_item check_args
call_item_lem f args = (
  λ e.
      rw
        (
          codes-length f.param_types args e,
          ==_refl (length args),
          check_types-eq_ok f.param_types args e,
        )
        (dynamic_call-eq f args e),
  λ ne. ground arith,
  λ same ne. rw (same, ==_refl (length args), check_types-mismatch f.param_types args same ne) refl,
)
