-- ===== src/Examples/Links.antt =====
-- Linked lists at concrete inputs.
use libremo.Prelude.{◌≡◌, refl, [], ◌∷◌, ◌==◌, some, none, if◌then◌else◌, arith}
use libremo.Error.{ok}
use libremo.Linked.{BaseList, new_item, push_front, push_back, remove, move_to_front, move_to_back}
use libremo.Linked.Back.{pushes-Represents}
use libremo.Linked.Remove.{takes-Represents}
use libremo.Linked.Chain.{Represents}

-- The list 5 with the item 3 in it.
abbrev one_item : BaseList
one_item = record {
  self = 5;
  first = some 3;
  last = some 3;
  count = 1;
  heap = λ b. if b == 3 then record { list = some 5; prev = none; next = none } else new_item none;
}

one_item-Represents : Represents one_item (3 ∷ [])
one_item-Represents = record {
  first = refl;
  last = refl;
  count = refl;
  chain = (refl, refl, refl, tt, tt);
}

pushes-Represents_example :
    ((s' : BaseList) × (push_front 4 one_item ≡ ok s') × Represents s' (4 ∷ 3 ∷ []))
    × ((s' : BaseList) × (push_back 4 one_item ≡ ok s') × Represents s' (3 ∷ 4 ∷ []))
pushes-Represents_example = pushes-Represents 4 one_item (3 ∷ []) refl one_item-Represents

-- The list 5 with the items 3, 4 and 6.
abbrev three_items : BaseList
three_items = record {
  self = 5;
  first = some 3;
  last = some 6;
  count = 3;
  heap = λ b.
      if b == 3
      then record { list = some 5; prev = none; next = some 4 }
      else if b == 4
      then record { list = some 5; prev = some 3; next = some 6 }
      else if b == 6
      then record { list = some 5; prev = some 4; next = none }
      else new_item none;
}

three_items-Represents : Represents three_items (3 ∷ 4 ∷ 6 ∷ [])
three_items-Represents = record {
  first = refl;
  last = refl;
  count = refl;
  chain = (
    refl,
    refl,
    refl,
    (omega arith, (omega arith, tt)),
    (refl, refl, refl, (omega arith, tt), (refl, refl, refl, tt, tt)),
  );
}

takes-Represents_example :
    ((s' : BaseList) × (remove 4 three_items ≡ ok s')
      × Represents s' (3 ∷ 6 ∷ [])
      × (s'.heap 4 ≡ new_item none))
    × ((s' : BaseList) × (move_to_front 4 three_items ≡ ok s') × Represents s' (4 ∷ 3 ∷ 6 ∷ []))
    × ((s' : BaseList) × (move_to_back 4 three_items ≡ ok s') × Represents s' (3 ∷ 6 ∷ 4 ∷ []))
takes-Represents_example = takes-Represents 4 three_items (3 ∷ []) (6 ∷ []) three_items-Represents
