-- ===== src/Rpc/Registry/Bind.antt =====
-- A function that is bound is found and called by its name.
use libremo.Prelude.{
  ℕ, ◌≡◌, ◌≢◌, refl, sym, ap, ◌∙◌, true, List, [], ◌∷◌, ==_refl, map, All, arith, none, some,
  Bool-cases, inl, inr,
}
use libremo.Error.{Result, ok}
use libremo.Types.{TypedValue, TypeId, type_code}
use libremo.Rpc.Item.{Function, is_valid_name, is_letter, is_word, is_words, new_function}
use libremo.Rpc.Item.Calls.{codes_of, call_item_lem}
use libremo.Rpc.Registry.{Local, find_item, register_item, bind, call, put}
use libremo.Rpc.Registry.Names.{lookup-cons_same}
use libremo.Rpc.Registry.Ownership.{
  IsRegistry, registered, registered-IsRegistry, none-some, not-both, put-some, put-same, put-other,
}

is_word-nonzero : (c : ℕ) → is_word c ≡ true → c ≢ 0
unfolding is_word is_letter
is_word-nonzero c h = ground arith

is_letter-nonzero : (c : ℕ) → is_letter c ≡ true → c ≢ 0
unfolding is_letter
is_letter-nonzero c h = ground arith

is_words-nonzero : (cs : List ℕ) → is_words cs ≡ true → All (λ c. c ≢ 0) cs
unfolding is_words
is_words-nonzero [] h = tt
is_words-nonzero (c ∷ cs) h = elim (Bool-cases (is_word c)) [
  | inl e ↦ (is_word-nonzero c e, is_words-nonzero cs cc)
  | inr e ↦ absurd cc
]

pub is_valid_name-nonzero : (name : List ℕ) → is_valid_name name ≡ true → All (λ c. c ≢ 0) name
unfolding is_valid_name
is_valid_name-nonzero [] h = tt
is_valid_name-nonzero (c ∷ cs) h = elim (Bool-cases (is_letter c)) [
  | inl e ↦ (is_letter-nonzero c e, is_words-nonzero cs cc)
  | inr e ↦ absurd cc
]

module _ (l : Local) (p : ℕ) (item : Function) (v : IsRegistry l) (unused : l.heap p ≡ none)
    (free : item.endpoint ≡ none) where
  abbrev with_item : Local
  with_item = record l { heap = put l.heap p (some item) }

  other : (q : ℕ) (i : Function) → l.heap q ≡ some i → q ≢ p
  other q i h e = none-some i (sym unused ∙ ap l.heap (sym e) ∙ h)

  ours-other :
      (q : ℕ) (i : Function)
      → put l.heap p (some item) q ≡ some i
      → i.endpoint ≡ some l.self
      → q ≢ p
  ours-other q i h k e = absurd (not-both item i l.self (put-some l.heap p q item i e h) free k)

  -- A new item, which belongs to no endpoint yet, changes nothing.
  pub with_item-IsRegistry : IsRegistry with_item
  unfolding find_item
  with_item-IsRegistry = record {
    entry = λ name q h.
        let (i, at, named, owner) = v.entry name q h in
        (i, put-other l.heap p q (some item) (other q i at) ∙ at, named, owner);
    owned =
        λ q i h k. v.owned q i (sym (put-other l.heap p q (some item) (ours-other q i h k)) ∙ h) k;
  }

module _ (l : Local) (p : ℕ) (name : List ℕ) (result_type : TypeId) (param_types : List TypeId)
    (body : List TypedValue → Result (TypedValue × List TypedValue)) (v : IsRegistry l)
    (unused : l.heap p ≡ none) (valid : is_valid_name name ≡ true)
    (new : find_item name l ≡ none) where
  abbrev bound_item : Function
  bound_item = record {
    name = name;
    endpoint = none;
    result_type = result_type;
    param_types = param_types;
    body = body;
  }

  abbrev pub bound : Local
  bound = registered (record l { heap = put l.heap p (some bound_item) }) p bound_item

  pub bind-eq : bind p name result_type param_types body l ≡ ok bound
  unfolding bind register_item new_function find_item
  bind-eq = rw (valid, put-same l.heap p (some bound_item), new) refl

  pub bound-IsRegistry : IsRegistry bound
  unfolding find_item
  bound-IsRegistry =
      registered-IsRegistry (record l { heap = put l.heap p (some bound_item) }) p bound_item
        (with_item-IsRegistry l p bound_item v unused refl) (put-same l.heap p (some bound_item))
        refl new

  -- What the bound function does is what a call by its name does, with arguments of its types.
  pub call-bound :
      (args : List TypedValue)
      → codes_of args ≡ map type_code param_types
      → call name args bound ≡ body args
  unfolding call find_item
  call-bound args e =
      rw (lookup-cons_same name p l.items, ==_refl p)
        ((call_item_lem (record bound_item { endpoint = some l.self }) args).0 e)
