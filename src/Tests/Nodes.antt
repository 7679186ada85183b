-- ===== src/Tests/Nodes.antt =====
-- Internal pages of src/bptreedb/tree.py: routed through, split and rebalanced.
use bptreedb.Prelude.{
  ℕ, ◌+◌, ◌≡◌, ◌≢◌, refl, true, false, none, some, List, [], ◌∷◌, arith, replicate,
}
use bptreedb.Exceptions.{ok, err, assertion_error}
use bptreedb.Struct.{Bytes}
use bptreedb.Keys.{lt_bytes}
use bptreedb.Entities.{InternalSlot, InternalPage}
use bptreedb.Codec.Sizes.{InternalSlot-Slot, calculate_page_size}
use bptreedb.Sequence.{pop_last}
use bptreedb.Tree.Slots.{route}
use bptreedb.Tree.Slots.Order.{IsSorted}
use bptreedb.Tree.Slots.Route.{walk, route-walk}
use bptreedb.Tree.Split.{
  raise_if_record_too_large, is_page_overpopulated, is_page_underpopulated,
  internal_halves_are_balanced, split_internal,
}
use bptreedb.Tree.Split.Internal.{rejoined, split_internal_lem, no_balanced_split}
use bptreedb.Tree.Rebalance.{
  Sides, internal_under, move_internal_from_left, move_internal_slots, move_internal_from_right,
  redistribute_loop, after_move, try_redistribute_internal,
}
use bptreedb.Tree.Rebalance.Internal.{
  joined, try_redistribute_internal-some, try_redistribute_internal-ends,
}
use bptreedb.Tree.Rebalance.Stuck.{internal_siblings_stuck}

program : Unit {0}
unfolding lt_bytes calculate_page_size pop_last is_page_overpopulated is_page_underpopulated
    move_internal_from_left move_internal_slots move_internal_from_right redistribute_loop
    after_move try_redistribute_internal
program = tt

-- A separator of 21 bytes with its directory entry.
abbrev slot : ℕ → InternalSlot
slot k = record { key = k ∷ []; child_page_id = 10 + k }

abbrev page_of : List InternalSlot → InternalPage
page_of slots = record { last_modified_lsn = 2; leftmost_child_page_id = 10; slots = slots }

abbrev four : InternalPage
four = page_of (slot 1 ∷ slot 2 ∷ slot 3 ∷ slot 4 ∷ [])

four_IsSorted : IsSorted four.slots
unfolding program
four_IsSorted = ((refl, (refl, (refl, tt))), ((refl, (refl, tt)), ((refl, tt), (tt, tt))))

route-walk_example : route four (3 ∷ 1 ∷ []) ≡ some (walk 10 four.slots (3 ∷ 1 ∷ []))
route-walk_example = route-walk four (3 ∷ 1 ∷ []) four_IsSorted

split_internal_lem_example :
    (left : InternalPage) × (right : InternalPage) × (promoted : Bytes) × (split_internal 64 four 8
      ≡ ok (left, right, promoted))
    × (rejoined left promoted right ≡ four.slots)
    × (left.leftmost_child_page_id ≡ 10)
    × (right.last_modified_lsn ≡ 8)
split_internal_lem_example = split_internal_lem 64 four 8 (omega arith)

-- Keys of 110 bytes on pages of 800 bytes: two slots are too few, six too many.
abbrev long_key : ℕ → Bytes
long_key k = k ∷ replicate 109 0

abbrev long : ℕ → InternalSlot
long k = record { key = long_key k; child_page_id = 10 + k }

no_balanced_split_example :
    (is_page_overpopulated 800 (long 1 ∷ long 2 ∷ long 3 ∷ long 4 ∷ long 5 ∷ long 6 ∷ []) ≡ true)
    × ((i : ℕ)
        → internal_halves_are_balanced 800
            (long 1 ∷ long 2 ∷ long 3 ∷ long 4 ∷ long 5 ∷ long 6 ∷ [])
            i
          ≡ false)
no_balanced_split_example =
    no_balanced_split 800 110 (long 1) (long 2) (long 3) (long 4) (long 5) (long 6)
      (refl, (refl, (refl, (refl, (refl, (refl, tt)))))) (omega arith) (omega arith)

abbrev stuck : Sides InternalPage
stuck = record {
  donor = page_of (long 1 ∷ long 2 ∷ long 3 ∷ []);
  recipient = page_of (long 5 ∷ long 6 ∷ []);
  separator = long_key 4;
}

internal_siblings_stuck_example :
    (internal_under 800 stuck.donor ≡ false)
    × (internal_under 800 stuck.recipient ≡ true)
    × (try_redistribute_internal 800 true stuck ≡ ok none)
    × (is_page_overpopulated 800 (joined true stuck).slots ≡ true)
    × (raise_if_record_too_large 800 (long_key 4) [] ≡ ok tt)
internal_siblings_stuck_example =
    internal_siblings_stuck 800 110 true stuck (long 1) (long 2) (long 3) (long 5) (long 6)
      (record {
        donor_slots = refl;
        recipient_slots = refl;
        key_lengths = (refl, refl, refl, refl, refl, refl);
      })
      (omega arith) (omega arith)

-- On pages of 128 bytes a full donor on the left of a page without a separator.
abbrev uneven : Sides InternalPage
uneven = record { donor = four; recipient = page_of []; separator = 6 ∷ [] }

abbrev even : Sides InternalPage
even = record {
  donor = page_of (slot 1 ∷ slot 2 ∷ slot 3 ∷ []);
  recipient = record {
    last_modified_lsn = 2;
    leftmost_child_page_id = 14;
    slots = record { key = 6 ∷ []; child_page_id = 10 } ∷ [];
  };
  separator = 4 ∷ [];
}

uneven_under : internal_under 128 uneven.recipient ≡ true
unfolding program
uneven_under = refl

uneven_redistributed : try_redistribute_internal 128 true uneven ≡ ok (some even)
unfolding program
uneven_redistributed = refl

try_redistribute_internal-some_example :
    (joined true even ≡ joined true uneven)
    × (internal_under 128 even.recipient ≡ false)
    × (internal_under 128 even.donor ≡ false)
try_redistribute_internal-some_example =
    try_redistribute_internal-some 128 true uneven even uneven_under uneven_redistributed

try_redistribute_internal-ends_example :
    try_redistribute_internal 128 false uneven ≢ err assertion_error
try_redistribute_internal-ends_example = try_redistribute_internal-ends 128 false uneven
