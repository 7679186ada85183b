-- ===== src/Tree/Cascade/Split.antt =====
-- `_split_page` of src/bptreedb/tree.py on the stored tree.
use bptreedb.Prelude.{ℕ, ◌+◌, Option, none, some, [], ◌∷◌}
use bptreedb.Exceptions.{Result, ok, ◌>>=◌}
use bptreedb.Struct.{Bytes}
use bptreedb.Entities.{InternalSlot, InternalPage, TreePage, leaf, internal}
use bptreedb.Codec.Sizes.{LeafSlot-Slot, InternalSlot-Slot}
use bptreedb.Tree.Slots.{insort}
use bptreedb.Tree.Split.{
  leaf_halves_are_balanced, internal_halves_are_balanced, choose_split_point, split_leaf_at,
  split_internal_at,
}
use bptreedb.Tree.Store.{PageStore, as_internal}

abbrev pub separator_slot : Bytes → ℕ → InternalSlot
separator_slot key child_page_id = record { key = key; child_page_id = child_page_id }

module _ {S : Type 0} ⦃store : PageStore S⦄ where
  -- The new sibling is made: the left half, the right half, the promoted key and the sibling's ID.
  unfoldable pub halve : ℕ → TreePage → ℕ → S → Result (TreePage × TreePage × Bytes × ℕ × S)
  halve p (leaf page) lsn s = do
    i ← choose_split_point (leaf_halves_are_balanced p page.slots) page.slots
    (new_sibling_page_id, s') ← store.allocate s
    (left, right, promoted_key) ← split_leaf_at page i new_sibling_page_id lsn
    ok (
      leaf left,
      leaf right,
      promoted_key,
      new_sibling_page_id,
      store.count (λ c. record c { leaf_splits = c.leaf_splits + 1 }) s',
    )
  halve p (internal page) lsn s = do
    i ← choose_split_point (internal_halves_are_balanced p page.slots) page.slots
    (new_sibling_page_id, s') ← store.allocate s
    (left, right, promoted_key) ← split_internal_at page i lsn
    ok (
      internal left,
      internal right,
      promoted_key,
      new_sibling_page_id,
      store.count (λ c. record c { internal_splits = c.internal_splits + 1 }) s',
    )

  -- The end of `_split_page`: a new root over the two halves, or a new slot in the parent.
  unfoldable pub promote : ℕ → Bytes → ℕ → Option ℕ → ℕ → S → Result (ℕ × InternalPage × S)
  promote page_id promoted_key new_sibling_page_id none lsn s = do
    (new_root_page_id, s₁) ← store.allocate s
    let new_root_page : InternalPage = record {
      last_modified_lsn = lsn;
      leftmost_child_page_id = page_id;
      slots = separator_slot promoted_key new_sibling_page_id ∷ [];
    }
    s₂ ← store.register new_root_page_id (internal new_root_page) lsn s₁
    s₃ ← store.set_root new_root_page_id s₂
    ok (new_root_page_id, new_root_page, s₃)
  promote page_id promoted_key new_sibling_page_id (some parent_page_id) lsn s = do
    (fetched, s₁) ← store.fetch parent_page_id s
    parent_page ← as_internal fetched
    let grown = record parent_page {
      slots = insort (separator_slot promoted_key new_sibling_page_id) parent_page.slots;
    }
    ok (parent_page_id, grown, store.assign parent_page_id (internal grown) s₁)

  unfoldable pub split_page : ℕ → Option ℕ → TreePage → ℕ → S → Result (ℕ × InternalPage × S)
  unfolding halve promote
  split_page page_id parent_page_id page lsn s = do
    m ← store.get_meta s
    (left, right, promoted_key, new_sibling_page_id, s₁) ← halve m.page_size_bytes page lsn s
    s₂ ← store.mark_dirty page_id lsn (store.assign page_id left s₁)
    s₃ ← store.register new_sibling_page_id right lsn s₂
    promote page_id promoted_key new_sibling_page_id parent_page_id lsn s₃
