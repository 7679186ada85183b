-- ===== src/Tree/Slots/Route.antt =====
-- The child that `_find_leaf` of src/bptreedb/tree.py follows.
use bptreedb.Prelude.{
  ℕ, zero, suc, ◌≡◌, refl, ap, ◌∙◌, Bool, not, Option, none, some, List, [], ◌∷◌, if◌then◌else◌,
  Bool-cases, inl, inr,
}
use bptreedb.Struct.{Bytes}
use bptreedb.Keys.{lt_bytes}
use bptreedb.Entities.{InternalSlot, InternalPage}
use bptreedb.Codec.Sizes.{InternalSlot-Slot}
use bptreedb.Tree.Bisect.{front}
use bptreedb.Tree.Slots.{child_of_place, child_at, route}
use bptreedb.Tree.Slots.Order.{IsSorted, bisect_right-front}

-- The last child whose separator is not above the key; `child` if there is none.
unfoldable pub walk : ℕ → List InternalSlot → Bytes → ℕ
walk child [] key = child
walk child (s ∷ slots) key = if lt_bytes key s.key then child else walk s.child_page_id slots key

abbrev not_more : Bytes → InternalSlot → Bool
not_more key s = not (lt_bytes key s.key)

route_front : ℕ → List InternalSlot → ℕ → Option ℕ
route_front child slots n =
    child_at (record { last_modified_lsn = 0; leftmost_child_page_id = child; slots = slots })
      (child_of_place n)

route_front-cons :
    (child : ℕ) (s : InternalSlot) (slots : List InternalSlot) (n : ℕ)
    → route_front child (s ∷ slots) (suc n) ≡ route_front s.child_page_id slots n
unfolding route_front child_at child_of_place
route_front-cons child s slots zero = refl
route_front-cons child s slots (suc n) = refl

route_front-walk :
    (child : ℕ) (slots : List InternalSlot) (key : Bytes)
    → route_front child slots (front (not_more key) slots) ≡ some (walk child slots key)
unfolding front walk
route_front-walk child [] key = unfold route_front child_at child_of_place in refl
route_front-walk child (s ∷ slots) key = elim (Bool-cases (lt_bytes key s.key)) [
  | inl lt ↦ rw lt (unfold route_front child_at child_of_place in refl)
  | inr ge ↦ rw ge (route_front-cons child s slots _ ∙ route_front-walk s.child_page_id slots key)
]

child_at-slots :
    (p : InternalPage) (i : Option ℕ)
    → child_at p i
      ≡ child_at
          (record {
            last_modified_lsn = 0;
            leftmost_child_page_id = p.leftmost_child_page_id;
            slots = p.slots;
          })
          i
unfolding child_at
child_at-slots p none = refl
child_at-slots p (some i) = refl

-- On sorted separators the descent always finds a child: the one behind the last separator that
-- is not above the key, or the leftmost one if all are above.
pub route-walk :
    (p : InternalPage) (key : Bytes)
    → IsSorted p.slots
    → route p key ≡ some (walk p.leftmost_child_page_id p.slots key)
unfolding route route_front
route-walk p key h =
    child_at-slots p _
    ∙ ap (λ (i : ℕ). route_front p.leftmost_child_page_id p.slots i)
        (bisect_right-front p.slots key h)
    ∙ route_front-walk p.leftmost_child_page_id p.slots key
