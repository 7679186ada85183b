-- ===== src/Tree/Rebalance.antt =====
-- `_try_redistribute_slots` of src/bptreedb/tree.py, and the probe pages of
-- `_redistribute_or_merge_page`, on the three pages that they are given.
pub mod LeafMoves
pub mod Leaf
pub mod Internal
pub mod Stuck
pub mod Fuel
use bptreedb.Prelude.{
  ℕ, zero, suc, Bool, true, false, Option, none, some, List, [], ◌∷◌, ◌++◌, ltb, if◌then◌else◌,
  length,
}
use bptreedb.Exceptions.{Result, ok, err, index_error, assertion_error, ◌>>=◌}
use bptreedb.Struct.{Bytes}
use bptreedb.Entities.{LeafSlot, LeafPage, InternalSlot, InternalPage}
use bptreedb.Codec.Sizes.{LeafSlot-Slot, InternalSlot-Slot, calculate_page_size}
use bptreedb.Sequence.{pop_last}
use bptreedb.Tree.Split.{is_page_underpopulated}

-- The donor, the recipient, and the key of their separator in the parent.
pub record Sides (A : Type 0) : Type 0 where
  pub donor : A
  pub recipient : A
  pub separator : Bytes

-- The two leaf cases in the body of the loop.
unfoldable pub move_leaf_from_left : Sides LeafPage → Result (Sides LeafPage)
move_leaf_from_left t = do
  (rest, s) ← pop_last t.donor.slots
  ok (record {
    donor = record t.donor { slots = rest };
    recipient = record t.recipient { slots = s ∷ t.recipient.slots };
    separator = s.key;
  })

-- `donor_page.slots.pop(0)`, and `donor_page.slots[0].key` behind it
unfoldable pub move_leaf_slots : Sides LeafPage → List LeafSlot → Result (Sides LeafPage)
move_leaf_slots t [] = err index_error
move_leaf_slots t (s ∷ []) = err index_error
move_leaf_slots t (s ∷ next ∷ rest) = ok (record {
  donor = record t.donor { slots = next ∷ rest };
  recipient = record t.recipient { slots = t.recipient.slots ++ s ∷ [] };
  separator = next.key;
})

unfoldable pub move_leaf_from_right : Sides LeafPage → Result (Sides LeafPage)
move_leaf_from_right t = move_leaf_slots t t.donor.slots

-- The two internal cases: the separator comes down, and the donor's outer key goes up.
abbrev pub internal_from_last :
    Sides InternalPage → List InternalSlot × InternalSlot → Sides InternalPage
internal_from_last t (rest, s) = record {
  donor = record t.donor { slots = rest };
  recipient = record t.recipient {
    leftmost_child_page_id = s.child_page_id;
    slots =
        record { key = t.separator; child_page_id = t.recipient.leftmost_child_page_id }
        ∷ t.recipient.slots;
  };
  separator = s.key;
}

unfoldable pub move_internal_from_left : Sides InternalPage → Result (Sides InternalPage)
move_internal_from_left t = do taken ← pop_last t.donor.slots; ok (internal_from_last t taken)

unfoldable pub move_internal_slots :
    Sides InternalPage → List InternalSlot → Result (Sides InternalPage)
move_internal_slots t [] = err index_error
move_internal_slots t (s ∷ rest) = ok (record {
  donor = record t.donor { leftmost_child_page_id = s.child_page_id; slots = rest };
  recipient = record t.recipient {
    slots =
        t.recipient.slots
        ++ record { key = t.separator; child_page_id = t.donor.leftmost_child_page_id } ∷ [];
  };
  separator = s.key;
})

unfoldable pub move_internal_from_right : Sides InternalPage → Result (Sides InternalPage)
move_internal_from_right t = move_internal_slots t t.donor.slots

-- The `while` loop. `none` is the rollback with `return False`: the caller goes on with the pages
-- that it had. Each round takes a slot from the donor or raises, so the donor's slots
-- bound the rounds; `assertion_error` stands for a round too many.
module _ {A : Type 0} (under : A → Bool) (move : Sides A → Result (Sides A)) where
  unfoldable pub after_move :
      (Sides A → Result (Option (Sides A))) → Result (Sides A) → Result (Option (Sides A))
  after_move continue (ok t) = if under t.donor then ok none else continue t
  after_move continue (err e) = err e

  unfoldable pub redistribute_loop : ℕ → Sides A → Result (Option (Sides A))
  unfolding after_move
  redistribute_loop zero t = err assertion_error
  redistribute_loop (suc fuel) t =
      let next = after_move (redistribute_loop fuel) (move t) in
      if under t.recipient then next else ok (some t)

abbrev pub leaf_under : ℕ → LeafPage → Bool
leaf_under p page = is_page_underpopulated p page.slots

abbrev pub internal_under : ℕ → InternalPage → Bool
internal_under p page = is_page_underpopulated p page.slots

abbrev pub leaf_move : Bool → Sides LeafPage → Result (Sides LeafPage)
leaf_move true = move_leaf_from_left
leaf_move false = move_leaf_from_right

abbrev pub internal_move : Bool → Sides InternalPage → Result (Sides InternalPage)
internal_move true = move_internal_from_left
internal_move false = move_internal_from_right

unfoldable pub try_redistribute_leaf : ℕ → Bool → Sides LeafPage → Result (Option (Sides LeafPage))
try_redistribute_leaf p donor_is_left t =
    redistribute_loop (leaf_under p) (leaf_move donor_is_left) (suc (length t.donor.slots)) t

unfoldable pub try_redistribute_internal :
    ℕ → Bool → Sides InternalPage → Result (Option (Sides InternalPage))
try_redistribute_internal p donor_is_left t =
    redistribute_loop (internal_under p) (internal_move donor_is_left) (suc (length t.donor.slots))
      t

-- The probes: the page that a merge into the left page would make.
abbrev pub merge_leaves : LeafPage → LeafPage → LeafPage
merge_leaves into from = record {
  last_modified_lsn = 0;
  right_sibling_page_id = from.right_sibling_page_id;
  slots = into.slots ++ from.slots;
}

abbrev pub merge_internals : InternalPage → Bytes → InternalPage → InternalPage
merge_internals into separator from = record {
  last_modified_lsn = 0;
  leftmost_child_page_id = into.leftmost_child_page_id;
  slots =
      into.slots
      ++ record { key = separator; child_page_id = from.leftmost_child_page_id } ∷ from.slots;
}
