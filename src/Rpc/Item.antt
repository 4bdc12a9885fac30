-- ===== src/Rpc/Item.antt =====
-- src/l3_rpc/item.h, item.cpp, function.h, function.cpp and dynamic_call.h: names, and functions that
-- are called with typed values.
pub mod Calls
use libremo.Prelude.{
  ℕ, zero, suc, ◌-◌, Bool, true, false, not, ◌&&◌, ◌||◌, List, [], ◌∷◌, ◌==◌, leb, length,
  get_elem?, Option, none, some,
}
use libremo.Error.{
  Result, ok, error, fault, ◌>>=◌, throw_if, err_param_num_mismatch, err_param_type_mismatch,
  err_invalid_identifier,
}
use libremo.Types.{TypedValue, TypeId, not_same, check_type}

unfoldable pub is_letter : ℕ → Bool
is_letter c = (leb 0x61 c && leb c 0x7A) || (leb 0x41 c && leb c 0x5A)

unfoldable pub is_word : ℕ → Bool
unfolding is_letter
is_word c = is_letter c || (leb 0x30 c && leb c 0x39) || (c == 0x5F)

unfoldable pub is_words : List ℕ → Bool
is_words [] = true
is_words (c ∷ cs) = is_word c && is_words cs

-- Item::is_valid_name
unfoldable pub is_valid_name : List ℕ → Bool
is_valid_name [] = false
is_valid_name (c ∷ cs) = is_letter c && is_words cs

-- An item that is a function. `body` is the bound C++ function: from the arguments to its result and
-- to the arguments with what it left behind their pointers. `endpoint` is the address of the endpoint.
pub record Function : Type 0 where
  pub name : List ℕ
  pub endpoint : Option ℕ
  pub result_type : TypeId
  pub param_types : List TypeId
  pub body : List TypedValue → Result (TypedValue × List TypedValue)

-- function(a_name, a_result_type, a_param_types), with the constructor of Item
unfoldable pub new_function :
    List ℕ
    → TypeId
    → List TypeId
    → (List TypedValue → Result (TypedValue × List TypedValue))
    → Result Function
new_function name result_type param_types body = do
  _ ← throw_if (not (is_valid_name name)) err_invalid_identifier
  ok (record {
    name = name;
    endpoint = none;
    result_type = result_type;
    param_types = param_types;
    body = body;
  })

-- The loop of `check_args`: from the first parameter on, next to the arguments.
unfoldable pub check_types : List TypeId → List TypedValue → Result (Unit {0})
check_types [] args = ok tt
check_types (t ∷ ts) [] = fault
check_types (t ∷ ts) (a ∷ args) = do
  _ ← throw_if (not_same a.type t) err_param_type_mismatch
  check_types ts args

unfoldable pub check_args : Function → List TypedValue → Result (Unit {0})
unfolding check_types
check_args f args = do
  _ ← throw_if (not (length f.param_types == length args)) err_param_num_mismatch
  check_types f.param_types args

-- ArgListIterator::next, with the index behind it
unfoldable pub next : List TypedValue → ℕ → Result (TypedValue × ℕ)
next args zero = fault
next args (suc j) = elim (get_elem? args j) [ none ↦ fault | some v ↦ ok (v, j) ]

-- `it.next().get<Arg>()...`, evaluated from the last parameter to the first.
unfoldable pub next_args : List TypeId → List TypedValue → Result (List TypedValue × ℕ)
next_args [] args = ok ([], length args)
next_args (t ∷ ts) args = do
  (vs, i) ← next_args ts args
  (v, j) ← next args i
  _ ← check_type v t
  ok (v ∷ vs, j)

unfoldable pub dynamic_call : Function → List TypedValue → Result (TypedValue × List TypedValue)
unfolding next_args next
dynamic_call f args = do (vs, i) ← next_args f.param_types args; f.body vs

-- bound_function::call and lambda_function::call
unfoldable pub call_item : Function → List TypedValue → Result (TypedValue × List TypedValue)
unfolding check_args dynamic_call
call_item f args = do _ ← check_args f args; dynamic_call f args
