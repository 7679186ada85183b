-- ===== src/Tree/Cascade/Siblings.antt =====
-- `_determine_same_parent_siblings` and the call of `_try_redistribute_slots` of src/bptreedb/tree.py.
use bptreedb.Prelude.{
  ℕ, zero, suc, ◌+◌, Bool, true, false, Option, none, some, List, [], ◌∷◌, ltb, if◌then◌else◌,
  length, get_elem?,
}
use bptreedb.Exceptions.{Result, ok, err, index_error, assertion_error, ◌>>=◌}
use bptreedb.Struct.{Bytes}
use bptreedb.Entities.{InternalSlot, InternalPage, LeafPage, TreePage, leaf, internal}
use bptreedb.Tree.Store.{PageStore}
use bptreedb.Tree.Rebalance.{Sides, try_redistribute_leaf, try_redistribute_internal}

-- A child on one side: its place among the separators that it shares with the page, its ID and page.
pub record Sibling : Type 0 where
  pub is_left : Bool
  pub separator_idx : ℕ
  pub page_id : ℕ
  pub page : TreePage

unfoldable pub child_in_slot : InternalPage → ℕ → Option ℕ
child_in_slot parent i = elim (get_elem? parent.slots i) [
  | none ↦ none
  | some s ↦ some s.child_page_id
]

-- `slots[i - 1]` is read only for an `i` in range.
unfoldable pub left_sibling_id : InternalPage → Option ℕ → Option ℕ
left_sibling_id parent none = none
left_sibling_id parent (some zero) = some parent.leftmost_child_page_id
left_sibling_id parent (some (suc i)) =
    if ltb (suc i) (length parent.slots) then child_in_slot parent i else none

-- The separator between the page and its right sibling; the right sibling is the child behind it.
abbrev pub right_separator : Option ℕ → ℕ
right_separator none = 0
right_separator (some i) = i + 1

unfoldable pub right_sibling_id : InternalPage → Option ℕ → Option ℕ
unfolding child_in_slot
right_sibling_id parent i = child_in_slot parent (right_separator i)

-- The separator between the page and its left sibling. A leftmost child has no left sibling.
abbrev pub left_separator : Option ℕ → ℕ
left_separator none = 0
left_separator (some i) = i

module _ {S : Type 0} ⦃store : PageStore S⦄ where
  unfoldable pub fetch_sibling : Bool → ℕ → Option ℕ → S → Result (List Sibling × S)
  fetch_sibling is_left separator_idx none s = ok ([], s)
  fetch_sibling is_left separator_idx (some page_id) s = do
    (page, s') ← store.fetch page_id s
    ok (
      record { is_left = is_left; separator_idx = separator_idx; page_id = page_id; page = page }
          ∷ [],
      s',
    )

  -- The siblings that are there, the left one first.
  unfoldable pub determine_same_parent_siblings :
      InternalPage → Option ℕ → S → Result (List Sibling × List Sibling × S)
  unfolding fetch_sibling left_sibling_id right_sibling_id
  determine_same_parent_siblings parent parent_slot_idx s = do
    (left, s₁) ←
        fetch_sibling true (left_separator parent_slot_idx) (left_sibling_id parent parent_slot_idx)
          s
    (right, s₂) ←
        fetch_sibling false (right_separator parent_slot_idx)
          (right_sibling_id parent parent_slot_idx) s₁
    ok (left, right, s₂)

-- `parent_page.slots[i].key = key`
unfoldable pub set_key : List InternalSlot → ℕ → Bytes → List InternalSlot
set_key [] i key = []
set_key (s ∷ slots) zero key = record s { key = key } ∷ slots
set_key (s ∷ slots) (suc i) key = s ∷ set_key slots i key

-- The donor, the recipient and the parent behind a redistribution that succeeded.
unfoldable pub leaf_result :
    InternalPage → ℕ → Option (Sides LeafPage) → Option (TreePage × TreePage × InternalPage)
leaf_result parent i none = none
leaf_result parent i (some t) =
    some
      (leaf t.donor, leaf t.recipient, record parent { slots = set_key parent.slots i t.separator })

unfoldable pub internal_result :
    InternalPage → ℕ → Option (Sides InternalPage) → Option (TreePage × TreePage × InternalPage)
internal_result parent i none = none
internal_result parent i (some t) = some (
  internal t.donor,
  internal t.recipient,
  record parent { slots = set_key parent.slots i t.separator },
)

-- `parent_page.slots[i].key`
unfoldable pub key_at : InternalPage → ℕ → Result Bytes
key_at parent i = elim (get_elem? parent.slots i) [ none ↦ err index_error | some s ↦ ok s.key ]

-- `_try_redistribute_slots` by the types of the two pages; `none` where it returns `False`. For pages of
-- two types it raises where a round is made, that is, if the recipient is underpopulated, as it is.
unfoldable pub try_redistribute_slots :
    ℕ
    → Bool
    → TreePage
    → TreePage
    → InternalPage
    → ℕ
    → Result (Option (TreePage × TreePage × InternalPage))
unfolding leaf_result internal_result key_at
try_redistribute_slots p donor_is_left (leaf donor) (leaf recipient) parent i = do
  separator ← key_at parent i
  moved ←
      try_redistribute_leaf p donor_is_left
        (record { donor = donor; recipient = recipient; separator = separator })
  ok (leaf_result parent i moved)
try_redistribute_slots p donor_is_left (internal donor) (internal recipient) parent i = do
  separator ← key_at parent i
  moved ←
      try_redistribute_internal p donor_is_left
        (record { donor = donor; recipient = recipient; separator = separator })
  ok (internal_result parent i moved)
try_redistribute_slots p donor_is_left donor recipient parent i = err assertion_error
