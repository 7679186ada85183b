-- ===== src/Tests/Leaves.antt =====
-- Leaves of src/bptreedb/tree.py on pages of 128 bytes: searched, changed, split and rebalanced.
use bptreedb.Prelude.{
  ℕ, ◌+◌, ◌<◌, ◌≡◌, ◌≢◌, ◌⊎◌, refl, true, false, none, some, List, [], ◌∷◌, arith, if◌then◌else◌,
  negsuc,
}
use bptreedb.Exceptions.{ok, err, assertion_error, db_record_too_large_error}
use bptreedb.Struct.{Bytes}
use bptreedb.Keys.{lt_bytes, eq_bytes}
use bptreedb.Entities.{LeafSlot, LeafPage}
use bptreedb.Codec.Sizes.{LeafSlot-Slot, calculate_page_size, body_size}
use bptreedb.Sequence.{pop_last}
use bptreedb.Tree.Bisect.{bisect}
use bptreedb.Tree.Slots.{
  bisect_left, bisect_right, insort, slot_at, search_slots, set_value, write_slot, insert_slots,
  delete_slots,
}
use bptreedb.Tree.Slots.Order.{IsSorted}
use bptreedb.Tree.Slots.Lookup.{
  lookup, upsert, removed, search_slots-lookup, insert_slots-upsert, delete_slots-removed,
}
use bptreedb.Tree.Slots.Dictionary.{search-insert, search-delete}
use bptreedb.Tree.Split.{
  raise_if_record_too_large, is_page_overpopulated, is_page_underpopulated,
  leaf_halves_are_balanced, choose_split_point, split_leaf,
}
use bptreedb.Tree.Split.Balance.{Good, choose_split_point-leaf}
use bptreedb.Tree.Split.Leaf.{SlotsFit, LeafSplit, insert-split}
use bptreedb.Tree.Rebalance.{
  Sides, move_leaf_from_left, move_leaf_slots, move_leaf_from_right, redistribute_loop, after_move,
  try_redistribute_leaf, merge_leaves,
}
use bptreedb.Tree.Rebalance.Leaf.{
  LeafBalanced, try_redistribute_leaf-some, try_redistribute_leaf-ends, try_redistribute_leaf-none,
}

program : Unit {0}
unfolding lt_bytes eq_bytes calculate_page_size body_size pop_last bisect bisect_left bisect_right
    insort slot_at set_value write_slot insert_slots raise_if_record_too_large is_page_overpopulated
    is_page_underpopulated move_leaf_from_left move_leaf_slots move_leaf_from_right
    redistribute_loop after_move try_redistribute_leaf
program = tt

-- A slot of 19 bytes with its directory entry.
abbrev slot : ℕ → LeafSlot
slot k = record { key = k ∷ []; value = 0 ∷ 0 ∷ [] }

abbrev page_of : List LeafSlot → LeafPage
page_of slots = record { last_modified_lsn = 2; right_sibling_page_id = 5; slots = slots }

abbrev five : List LeafSlot
five = slot 1 ∷ slot 2 ∷ slot 3 ∷ slot 5 ∷ slot 6 ∷ []

five-IsSorted : IsSorted five
unfolding program
five-IsSorted = (
  (refl, (refl, (refl, (refl, tt)))),
  ((refl, (refl, (refl, tt))), ((refl, (refl, tt)), ((refl, tt), (tt, tt)))),
)

five-SlotsFit : SlotsFit 128 five
five-SlotsFit = (omega arith, (omega arith, (omega arith, (omega arith, (omega arith, tt)))))

search_slots-lookup_example : search_slots five (5 ∷ []) ≡ lookup five (5 ∷ [])
search_slots-lookup_example = search_slots-lookup five (5 ∷ []) five-IsSorted

insert_slots-upsert_example : insert_slots five (4 ∷ []) (8 ∷ []) ≡ upsert five (4 ∷ []) (8 ∷ [])
insert_slots-upsert_example = insert_slots-upsert five (4 ∷ []) (8 ∷ []) five-IsSorted

delete_slots-removed_example :
    delete_slots five (4 ∷ []) ≡ removed five (4 ∷ []) (lookup five (4 ∷ []))
delete_slots-removed_example = delete_slots-removed five (4 ∷ []) five-IsSorted

search-insert_example :
    IsSorted (insert_slots five (4 ∷ []) (8 ∷ []))
    × ((j : Bytes)
        → search_slots (insert_slots five (4 ∷ []) (8 ∷ [])) j
          ≡ (if eq_bytes (4 ∷ []) j then some (8 ∷ []) else search_slots five j))
search-insert_example = search-insert five (4 ∷ []) (8 ∷ []) five-IsSorted

search-delete_example :
    ((search_slots five (3 ∷ []) ≡ none) × (delete_slots five (3 ∷ []) ≡ none))
    ⊎ ((v : Bytes) × (slots' : List LeafSlot) × (search_slots five (3 ∷ []) ≡ some v)
        × (delete_slots five (3 ∷ []) ≡ some slots')
        × IsSorted slots'
        × ((j : Bytes)
            → search_slots slots' j ≡ (if eq_bytes (3 ∷ []) j then none else search_slots five j)))
search-delete_example = search-delete five (3 ∷ []) five-IsSorted

-- The five slots fill the page, and a sixth overfills it.
five_fits : is_page_overpopulated 128 five ≡ false
unfolding program
five_fits = refl

fourth_accepted : raise_if_record_too_large 128 (4 ∷ []) (8 ∷ 8 ∷ []) ≡ ok tt
unfolding program
fourth_accepted = refl

-- A page of 64 bytes takes no record: its limit is -2.
none_accepted : raise_if_record_too_large 64 [] [] ≡ err (db_record_too_large_error (negsuc 1) 8)
unfolding program
none_accepted = refl

six_overfull : is_page_overpopulated 128 (insert_slots five (4 ∷ []) (8 ∷ 8 ∷ [])) ≡ true
unfolding program
six_overfull = refl

insert-split_example :
    (left : LeafPage) × (right : LeafPage) × (promoted : Bytes) × (split_leaf 128
        (page_of (insert_slots five (4 ∷ []) (8 ∷ 8 ∷ [])))
        9
        3
      ≡ ok (left, right, promoted))
    × LeafSplit 128 (page_of (insert_slots five (4 ∷ []) (8 ∷ 8 ∷ []))) left right promoted 9 3
insert-split_example =
    insert-split 128 (page_of five) (4 ∷ []) (8 ∷ 8 ∷ []) 9 3 (omega arith) five-IsSorted
      five-SlotsFit five_fits fourth_accepted six_overfull

abbrev six : List LeafSlot
six = slot 1 ∷ slot 2 ∷ slot 3 ∷ slot 4 ∷ slot 5 ∷ slot 6 ∷ []

six_large : 128 < 32 + body_size six
unfolding program
six_large = omega arith

choose_split_point-leaf_example :
    (i : ℕ) × (choose_split_point (leaf_halves_are_balanced 128 six) six ≡ ok i)
    × Good (leaf_halves_are_balanced 128 six) 6 i
choose_split_point-leaf_example =
    choose_split_point-leaf 128 six (omega arith)
      (omega arith, (omega arith, (omega arith, (omega arith, (omega arith, (omega arith, tt))))))
      six_large

-- A full donor on the left of a leaf with one slot.
abbrev uneven : Sides LeafPage
uneven = record { donor = page_of five; recipient = page_of (slot 7 ∷ []); separator = 7 ∷ [] }

abbrev even : Sides LeafPage
even = record {
  donor = page_of (slot 1 ∷ slot 2 ∷ slot 3 ∷ slot 5 ∷ []);
  recipient = page_of (slot 6 ∷ slot 7 ∷ []);
  separator = 6 ∷ [];
}

uneven_under : is_page_underpopulated 128 uneven.recipient.slots ≡ true
unfolding program
uneven_under = refl

uneven_redistributed : try_redistribute_leaf 128 true uneven ≡ ok (some even)
unfolding program
uneven_redistributed = refl

try_redistribute_leaf-some_example : LeafBalanced 128 true uneven even
try_redistribute_leaf-some_example =
    try_redistribute_leaf-some 128 true uneven even uneven_under uneven_redistributed

try_redistribute_leaf-ends_example : try_redistribute_leaf 128 false uneven ≢ err assertion_error
try_redistribute_leaf-ends_example = try_redistribute_leaf-ends 128 false uneven

-- Two leaves with one slot each.
abbrev poor : Sides LeafPage
poor = record {
  donor = page_of (slot 1 ∷ []);
  recipient = page_of (slot 7 ∷ []);
  separator = 7 ∷ [];
}

poor_gives_up : try_redistribute_leaf 128 true poor ≡ ok none
unfolding program
poor_gives_up = refl

try_redistribute_leaf-none_example :
    is_page_overpopulated 128 (merge_leaves poor.donor poor.recipient).slots ≡ false
try_redistribute_leaf-none_example =
    try_redistribute_leaf-none 128 true poor (omega arith, (omega arith, tt)) poor_gives_up
