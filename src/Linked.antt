-- ===== src/Linked.antt =====
-- src/utils/list.h and list.cpp: a doubly linked list whose links are fields of its items.
pub mod Chain
pub mod Back
pub mod Middle
pub mod Remove
use libremo.Prelude.{ℕ, ◌+◌, ◌-◌, Bool, true, false, not, ◌==◌, if◌then◌else◌, Option, none, some}
use libremo.Error.{Result, ok, fault, ◌>>=◌, remo_assert}

-- `m_list`, `m_prev` and `m_next`; lists and items are named by their addresses.
pub record ListItem : Type 0 where
  pub list : Option ℕ
  pub prev : Option ℕ
  pub next : Option ℕ

-- ListItem(a_list): the item is not linked to the list that it names.
abbrev pub new_item : Option ℕ → ListItem
new_item a_list = record { list = a_list; prev = none; next = none }

-- One list at `self`, with the heap of all items.
pub record BaseList : Type 0 where
  pub self : ℕ
  pub first : Option ℕ
  pub last : Option ℕ
  pub count : ℕ
  pub heap : ℕ → ListItem

-- BaseList()
abbrev pub new_list : ℕ → (ℕ → ListItem) → BaseList
new_list self heap = record { self = self; first = none; last = none; count = 0; heap = heap }

abbrev pub same_address : Option ℕ → Option ℕ → Bool
same_address none none = true
same_address none (some b) = false
same_address (some a) none = false
same_address (some a) (some b) = a == b

abbrev pub update : ℕ → (ListItem → ListItem) → (ℕ → ListItem) → ℕ → ListItem
update a f heap b = if b == a then f (heap b) else heap b

-- set_list, set_prev and set_next of an item
abbrev pub set_list : ℕ → Option ℕ → BaseList → BaseList
set_list a l s = record s { heap = update a (λ i. record i { list = l }) s.heap }

abbrev pub set_prev : ℕ → Option ℕ → BaseList → BaseList
set_prev a p s = record s { heap = update a (λ i. record i { prev = p }) s.heap }

abbrev pub set_next : ℕ → Option ℕ → BaseList → BaseList
set_next a n s = record s { heap = update a (λ i. record i { next = n }) s.heap }

-- The same through a pointer, which must not be null.
unfoldable pub set_prev_at : Option ℕ → Option ℕ → BaseList → Result BaseList
set_prev_at none p s = fault
set_prev_at (some a) p s = ok (set_prev a p s)

unfoldable pub set_next_at : Option ℕ → Option ℕ → BaseList → Result BaseList
set_next_at none n s = fault
set_next_at (some a) n s = ok (set_next a n s)

unfoldable pub is_empty : BaseList → Bool
is_empty s = s.count == 0

unfoldable pub push_front : ℕ → BaseList → Result BaseList
unfolding set_prev_at is_empty
push_front a s = do
  _ ← remo_assert (same_address (s.heap a).list none)
  let s1 = set_next a s.first (set_list a (some s.self) s)
  s2 ←
      if is_empty s1
      then ok (record s1 { first = some a; last = some a })
      else set_prev_at s1.first (some a) s1
  ok (record s2 { first = some a; count = s2.count + 1 })

unfoldable pub push_back : ℕ → BaseList → Result BaseList
unfolding set_next_at is_empty
push_back a s = do
  _ ← remo_assert (same_address (s.heap a).list none)
  let s1 = set_prev a s.last (set_list a (some s.self) s)
  s2 ←
      if is_empty s1
      then ok (record s1 { first = some a; last = some a })
      else set_next_at s1.last (some a) s1
  ok (record s2 { last = some a; count = s2.count + 1 })

-- The two `if` statements of `remove`.
unlink_first : ℕ → BaseList → Result BaseList
unfolding set_next_at
unlink_first a s =
    if same_address s.first (some a)
    then ok (record s { first = (s.heap a).next })
    else set_next_at (s.heap a).prev (s.heap a).next s

unlink_last : ℕ → BaseList → Result BaseList
unfolding set_prev_at
unlink_last a s =
    if same_address s.last (some a)
    then ok (record s { last = (s.heap a).prev })
    else set_prev_at (s.heap a).next (s.heap a).prev s

-- `--m_count` wraps at 0 in the source; a list that an item is in counts one at least.
unfoldable pub remove : ℕ → BaseList → Result BaseList
unfolding unlink_first unlink_last
remove a s = do
  _ ← remo_assert (same_address (s.heap a).list (some s.self))
  s1 ← unlink_first a s
  s2 ← unlink_last a s1
  let s3 = record s2 { count = s2.count - 1 }
  ok (set_list a none (set_next a none (set_prev a none s3)))

unfoldable pub move_to_front : ℕ → BaseList → Result BaseList
unfolding remove push_front
move_to_front a s = do s1 ← remove a s; push_front a s1

unfoldable pub move_to_back : ℕ → BaseList → Result BaseList
unfolding remove push_back
move_to_back a s = do s1 ← remove a s; push_back a s1

unfoldable pub contains : ℕ → BaseList → Bool
contains a s = same_address (s.heap a).list (some s.self)

-- ListItem::~ListItem
unfoldable pub destroy_list_item : ℕ → BaseList → Result BaseList
unfolding remove
destroy_list_item a s = if contains a s then remove a s else ok s
