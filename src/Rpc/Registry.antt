-- ===== src/Rpc/Registry.antt =====
-- src/l3_rpc/local_endpoint.h, local_endpoint.tpp.h and local_endpoint.cpp: the functions of a local
-- endpoint by their names.
pub mod Names
pub mod Ownership
pub mod Bind
pub mod Clear
use libremo.Prelude.{
  ℕ, Bool, true, false, not, ◌&&◌, List, [], ◌∷◌, ◌==◌, if◌then◌else◌, Option, none, some,
}
use libremo.Error.{
  Result, ok, error, fault, ◌>>=◌, throw_if, err_item_already_registered, err_item_already_existing,
  err_item_not_found, err_rpc_not_found,
}
use libremo.Types.{TypedValue, TypeId}
use libremo.Rpc.Item.{Function, new_function, call_item}

-- The items live in a heap, by their addresses. `items` is the map from names to addresses, `self`
-- the address of the endpoint.
pub record Local : Type 0 where
  pub self : ℕ
  pub heap : ℕ → Option Function
  pub items : List (List ℕ × ℕ)

abbrev pub is_some : {A : Type 0} → Option A → Bool
is_some none = false
is_some (some x) = true

abbrev pub same_name : List ℕ → List ℕ → Bool
same_name [] [] = true
same_name [] (y ∷ ys) = false
same_name (x ∷ xs) [] = false
same_name (x ∷ xs) (y ∷ ys) = (x == y) && same_name xs ys

-- find, erase and the assignment of a pointer of std::unordered_map and the heap
unfoldable pub lookup : List ℕ → List (List ℕ × ℕ) → Option ℕ
lookup name [] = none
lookup name ((n, p) ∷ rest) = if same_name name n then some p else lookup name rest

unfoldable pub erase : List ℕ → List (List ℕ × ℕ) → List (List ℕ × ℕ)
erase name [] = []
erase name ((n, p) ∷ rest) = if same_name name n then erase name rest else (n, p) ∷ erase name rest

abbrev pub put : (ℕ → Option Function) → ℕ → Option Function → ℕ → Option Function
put heap p item q = if q == p then item else heap q

unfoldable pub find_item : List ℕ → Local → Option ℕ
unfolding lookup
find_item name l = lookup name l.items

register_at : ℕ → Option Function → Local → Result Local
register_at p none l = fault
register_at p (some item) l = do
  _ ← throw_if (is_some item.endpoint) err_item_already_registered
  _ ← throw_if (is_some (lookup item.name l.items)) err_item_already_existing
  ok (record l {
    items = (item.name, p) ∷ l.items;
    heap = put l.heap p (some (record item { endpoint = some l.self }));
  })

-- A null pointer is ignored.
unfoldable pub register_item : Option ℕ → Local → Result Local
unfolding register_at
register_item none l = ok l
register_item (some p) l = register_at p (l.heap p) l

unregister_at : ℕ → Option Function → Local → Result Local
unfolding erase
unregister_at p none l = fault
unregister_at p (some item) l = do
  _ ← throw_if (not (is_some (lookup item.name l.items))) err_item_not_found
  ok (record l {
    items = erase item.name l.items;
    heap = put l.heap p (some (record item { endpoint = none }));
  })

unfoldable pub unregister_item : Option ℕ → Local → Result Local
unfolding unregister_at
unregister_item none l = ok l
unregister_item (some p) l = unregister_at p (l.heap p) l

-- LocalEndpoint::bind, with the address that `new` gave
unfoldable pub bind :
    ℕ
    → List ℕ
    → TypeId
    → List TypeId
    → (List TypedValue → Result (TypedValue × List TypedValue))
    → Local
    → Result Local
unfolding new_function register_item
bind p name result_type param_types body l = do
  item ← new_function name result_type param_types body
  register_item (some p) (record l { heap = put l.heap p (some item) })

call_at : Option Function → List TypedValue → Result (TypedValue × List TypedValue)
unfolding call_item
call_at none args = fault
call_at (some item) args = call_item item args

call_found : Option ℕ → List TypedValue → Local → Result (TypedValue × List TypedValue)
unfolding call_at
call_found none args l = error err_rpc_not_found
call_found (some p) args l = call_at (l.heap p) args

-- LocalEndpoint::call
unfoldable pub call : List ℕ → List TypedValue → Local → Result (TypedValue × List TypedValue)
unfolding call_found find_item
call name args l = call_found (find_item name l) args l

unfoldable pub destroy_at : ℕ → Option Function → Local → Result Local
unfolding unregister_item
destroy_at p none l = fault
destroy_at p (some item) l = do
  l' ← if is_some item.endpoint then unregister_item (some p) l else ok l
  ok (record l' { heap = put l'.heap p none })

-- Item::~Item, which gives the address free
unfoldable pub destroy_item : ℕ → Local → Result Local
unfolding destroy_at
destroy_item p l = destroy_at p (l.heap p) l

-- The turn of the loop for one item: it forgets the endpoint before it is deleted.
unfoldable pub delete_at : ℕ → Option Function → Local → Result Local
unfolding destroy_item
delete_at p none l = fault
delete_at p (some item) l =
    destroy_item p (record l { heap = put l.heap p (some (record item { endpoint = none })) })

unfoldable pub delete_all : List (List ℕ × ℕ) → Local → Result Local
unfolding delete_at
delete_all [] l = ok l
delete_all ((n, p) ∷ rest) l = do l' ← delete_at p (l.heap p) l; delete_all rest l'

unfoldable pub clear_items : Local → Result Local
unfolding delete_all
clear_items l = do l' ← delete_all l.items l; ok (record l' { items = [] })
