-- ===== src/Tree/Cascade/Operations.antt =====
-- `_balance_and_write_tree`, `insert` and `delete` of src/bptreedb/tree.py.
use bptreedb.Prelude.{
  ℕ, zero, suc, ◌+◌, Bool, true, false, not, ◌&&◌, Option, none, some, List, [], ◌∷◌, ◌==◌,
  if◌then◌else◌, length,
}
use bptreedb.Exceptions.{Result, ok, err, out_of_rounds, ◌>>=◌, ◌>>◌}
use bptreedb.Struct.{Bytes}
use bptreedb.Entities.{InternalPage, LeafSlot, TreePage, leaf, internal}
use mathlib.Core.List.{reverse}
use bptreedb.Tree.Slots.{insert_slots, delete_slots}
use bptreedb.Tree.Split.{raise_if_record_too_large}
use bptreedb.Tree.Store.{PageStore}
use bptreedb.Tree.Descent.{PathItem, LeafSearchResult, find_leaf}
use bptreedb.Tree.Cascade.Split.{split_page}
use bptreedb.Tree.Cascade.Rescue.{overpopulated, underpopulated, redistribute_or_merge_page}

-- `path_item.parent_page_id if path_item else None`
abbrev pub parent_of : List PathItem → Option ℕ
parent_of [] = none
parent_of (item ∷ items) = some item.parent_page_id

abbrev pub place_of : List PathItem → Option (ℕ × Option ℕ)
place_of [] = none
place_of (item ∷ items) = some (item.parent_page_id, item.parent_slot_index)

-- What is left of `path_stack` behind its `pop`; the top of the stack comes first here.
abbrev pub popped : List PathItem → List PathItem
popped [] = []
popped (item ∷ items) = items

module _ {S : Type 0} ⦃store : PageStore S⦄ where
  -- The page stack has one page at most. A round takes a path item; a root that was split is one round
  -- more, and so is the new root.
  unfoldable pub balance_loop : ℕ → ℕ × TreePage → List PathItem → ℕ → S → Result S
  balance_loop zero (page_id, page) path lsn s = err out_of_rounds
  balance_loop (suc rounds) (page_id, page) path lsn s = do
    m ← store.get_meta s
    let p = m.page_size_bytes
    let go_on = λ (parent : ℕ × InternalPage) (s' : S).
        balance_loop rounds (parent.0, internal parent.1) (popped path) lsn s'
    if overpopulated p page
        then (do
          (parent_id, parent, s₁) ← split_page page_id (parent_of path) page lsn s
          go_on (parent_id, parent) s₁)
        else if underpopulated p page && not (page_id == m.root_page_id)
        then (do
          (revisit, s₁) ← redistribute_or_merge_page page_id (place_of path) page lsn s
          elim revisit [ none ↦ ok s₁ | some parent ↦ go_on parent s₁ ])
        else store.mark_dirty page_id lsn s

  unfoldable pub balance_and_write_tree : ℕ → TreePage → List PathItem → ℕ → S → Result S
  unfolding balance_loop
  balance_and_write_tree modified_page_id modified_page path lsn s =
      balance_loop (length path + 2) (modified_page_id, modified_page) (reverse path) lsn s

  -- The leaf with its new slots, as the pool has it from then on.
  unfoldable pub write_leaf : LeafSearchResult → List LeafSlot → ℕ → S → Result S
  write_leaf found slots lsn s = do
    let page = leaf (record found.leaf_page { slots = slots })
    balance_and_write_tree found.leaf_page_id page found.path lsn
        (store.assign found.leaf_page_id page s)

  unfoldable pub insert : Bytes → Bytes → ℕ → S → Result S
  unfolding write_leaf
  insert key value lsn s = do
    m ← store.get_meta s
    raise_if_record_too_large m.page_size_bytes key value
    (found, s') ← find_leaf key s
    write_leaf found (insert_slots found.leaf_page.slots key value) lsn s'

  unfoldable pub delete : Bytes → ℕ → S → Result (Bool × S)
  unfolding write_leaf
  delete key lsn s = do
    (found, s') ← find_leaf key s
    elim (delete_slots found.leaf_page.slots key) [
      | none ↦ ok (false, s')
      | some slots ↦ do s'' ← write_leaf found slots lsn s'; ok (true, s'')
    ]
