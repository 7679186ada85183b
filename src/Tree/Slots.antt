-- ===== src/Tree/Slots.antt =====
-- What `search`, `insert` and `delete` of src/bptreedb/tree.py do with the slots of the leaf that
-- they reach, and how `_find_leaf` chooses a child.
pub mod Order
pub mod Lookup
pub mod Dictionary
pub mod Route
use bptreedb.Prelude.{
  ℕ, suc, ◌+◌, ◌-◌, Bool, true, false, not, Option, none, some, List, [], ◌∷◌, ◌++◌, leb, ltb, ◌&&◌,
  ◌==◌, if◌then◌else◌, length, get_elem?, take, drop,
}
use bptreedb.Struct.{Bytes}
use bptreedb.Keys.{lt_bytes, eq_bytes}
use bptreedb.Entities.{LeafSlot, InternalSlot, InternalPage}
use bptreedb.Codec.Sizes.{Slot, LeafSlot-Slot, InternalSlot-Slot}
use bptreedb.Tree.Bisect.{bisect}

module _ {A : Type 0} ⦃slot : Slot A⦄ where
  -- `bisect.bisect_left(slots, key, key=_KEY_GETTER)`
  unfoldable pub bisect_left : List A → Bytes → ℕ
  bisect_left slots key = bisect (λ s. lt_bytes (slot.key_of s) key) slots

  -- `bisect.bisect_right(slots, key, key=_KEY_GETTER)`
  unfoldable pub bisect_right : List A → Bytes → ℕ
  bisect_right slots key = bisect (λ s. not (lt_bytes key (slot.key_of s))) slots

  -- `slots.insert(i, s)`
  abbrev pub insert_at : ℕ → A → List A → List A
  insert_at i s slots = take i slots ++ s ∷ drop i slots

  -- `bisect.insort(slots, s, key=_KEY_GETTER)`
  unfoldable pub insort : A → List A → List A
  insort s slots = insert_at (bisect_right slots (slot.key_of s)) s slots

-- `0 <= slot_idx < len(slots) and slots[slot_idx].key == key`: the slot, if the key is there.
unfoldable pub slot_at : List LeafSlot → ℕ → Bytes → Option LeafSlot
slot_at slots slot_idx key = elim (get_elem? slots slot_idx) [
  | none ↦ none
  | some s ↦ if eq_bytes s.key key then some s else none
]

-- `search` behind `_find_leaf`
unfoldable pub value_of : Option LeafSlot → Option Bytes
value_of none = none
value_of (some s) = some s.value

unfoldable pub search_slots : List LeafSlot → Bytes → Option Bytes
search_slots slots key = value_of (slot_at slots (bisect_left slots key) key)

-- `slots[i].value = value`
unfoldable pub set_value : List LeafSlot → ℕ → Bytes → List LeafSlot
set_value [] i value = []
set_value (s ∷ slots) ℕ.zero value = record s { value = value } ∷ slots
set_value (s ∷ slots) (suc i) value = s ∷ set_value slots i value

-- `insert` between `_find_leaf` and the rebalancing
unfoldable pub write_slot : List LeafSlot → Bytes → Bytes → Option LeafSlot → List LeafSlot
write_slot slots key value none = insort (record { key = key; value = value }) slots
write_slot slots key value (some _) = set_value slots (bisect_left slots key) value

unfoldable pub insert_slots : List LeafSlot → Bytes → Bytes → List LeafSlot
insert_slots slots key value =
    write_slot slots key value (slot_at slots (bisect_left slots key) key)

-- `delete` between `_find_leaf` and the rebalancing; `none` where it returns `False`
unfoldable pub pop_slot : List LeafSlot → ℕ → Option LeafSlot → Option (List LeafSlot)
pop_slot slots i none = none
pop_slot slots i (some _) = some (take i slots ++ drop (suc i) slots)

unfoldable pub delete_slots : List LeafSlot → Bytes → Option (List LeafSlot)
delete_slots slots key =
    pop_slot slots (bisect_left slots key) (slot_at slots (bisect_left slots key) key)

-- `slot_idx = bisect_right(...) - 1`, where `none` stands for the slot index -1.
unfoldable pub child_of_place : ℕ → Option ℕ
child_of_place ℕ.zero = none
child_of_place (suc i) = some i

unfoldable pub child_at : InternalPage → Option ℕ → Option ℕ
child_at p none = some p.leftmost_child_page_id
child_at p (some i) = elim (get_elem? p.slots i) [ none ↦ none | some s ↦ some s.child_page_id ]

-- The child that `_find_leaf` follows. `none` would be an index out of range.
unfoldable pub route : InternalPage → Bytes → Option ℕ
route p key = child_at p (child_of_place (bisect_right p.slots key))
