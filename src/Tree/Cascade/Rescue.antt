-- ===== src/Tree/Cascade/Rescue.antt =====
-- `_redistribute_or_merge_page` of src/bptreedb/tree.py on the stored tree.
use bptreedb.Prelude.{
  ℕ, suc, ◌+◌, Bool, Option, none, some, List, [], ◌∷◌, ◌++◌, ltb, ◌==◌, ◌||◌, ◌&&◌, if◌then◌else◌,
  length, take, drop,
}
use bptreedb.Exceptions.{Result, ok, err, assertion_error, ◌>>=◌}
use bptreedb.Entities.{InternalPage, TreePage, leaf, internal}
use bptreedb.Codec.Sizes.{LeafSlot-Slot, InternalSlot-Slot}
use bptreedb.Tree.Split.{is_page_overpopulated, is_page_underpopulated}
use bptreedb.Tree.Rebalance.{merge_leaves, merge_internals}
use bptreedb.Tree.Store.{TreeStats, PageStore, as_internal}
use bptreedb.Tree.Cascade.Siblings.{
  Sibling, determine_same_parent_siblings, key_at, try_redistribute_slots,
}

abbrev pub overpopulated : ℕ → TreePage → Bool
overpopulated p (leaf page) = is_page_overpopulated p page.slots
overpopulated p (internal page) = is_page_overpopulated p page.slots

abbrev pub underpopulated : ℕ → TreePage → Bool
underpopulated p (leaf page) = is_page_underpopulated p page.slots
underpopulated p (internal page) = is_page_underpopulated p page.slots

abbrev pub count_redistribute : TreePage → TreeStats → TreeStats
count_redistribute (leaf page) c = record c { leaf_redistributes = c.leaf_redistributes + 1 }
count_redistribute (internal page) c = record c {
  internal_redistributes = c.internal_redistributes + 1;
}

abbrev pub count_merge : TreePage → TreeStats → TreeStats
count_merge (leaf page) c = record c { leaf_merges = c.leaf_merges + 1 }
count_merge (internal page) c = record c { internal_merges = c.internal_merges + 1 }

-- The page behind the merge, which keeps its stamp; `merge_into` is on the left.
unfoldable pub probe : TreePage → TreePage → InternalPage → ℕ → Result TreePage
probe (leaf into) (leaf from) parent i = do
  let merged = merge_leaves into from
  ok (
      leaf (record into {
        right_sibling_page_id = merged.right_sibling_page_id;
        slots = merged.slots;
      }))
probe (internal into) (internal from) parent i = do
  key ← key_at parent i
  ok (internal (record into { slots = (merge_internals into key from).slots }))
probe into from parent i = err assertion_error

-- `max(last_modified_lsn, lsn)`, which `mark_dirty` does to the object.
abbrev pub newer : ℕ → ℕ → ℕ
newer lsn old = if ltb lsn old then old else lsn

abbrev pub touched : ℕ → InternalPage → InternalPage
touched lsn page = record page { last_modified_lsn = newer lsn page.last_modified_lsn }

-- `parent_page.slots.pop(i)`
abbrev pub without_slot : ℕ → InternalPage → InternalPage
without_slot i parent = record parent { slots = take i parent.slots ++ drop (suc i) parent.slots }

-- What the cascade goes on with, if anything.
abbrev pub Revisit : Type 0
Revisit = Option (ℕ × InternalPage)

module _ {S : Type 0} ⦃store : PageStore S⦄ where
  -- Behind a redistribution that succeeded.
  unfoldable pub write_redistributed :
      ℕ → ℕ → ℕ → ℕ → ℕ → TreePage × TreePage × InternalPage → S → Result (Revisit × S)
  write_redistributed p page_id sibling_id parent_id lsn (donor, recipient, parent) s = do
    let assigned =
        store.assign parent_id (internal parent)
          (store.assign page_id recipient (store.assign sibling_id donor s))
    s₁ ← store.mark_dirty page_id lsn assigned
    s₂ ← store.mark_dirty sibling_id lsn s₁
    let s₃ = store.count (count_redistribute recipient) s₂
    if is_page_overpopulated p parent.slots || is_page_underpopulated p parent.slots
        then ok (some (parent_id, parent), s₃)
        else (do s₄ ← store.mark_dirty parent_id lsn s₃; ok (none, s₄))

  -- The first loop; `none` where no sibling helps.
  unfoldable pub redistribute :
      ℕ → ℕ → TreePage → ℕ → InternalPage → ℕ → List Sibling → S → Result (Option (Revisit × S))
  redistribute p page_id page parent_id parent lsn [] s = ok none
  redistribute p page_id page parent_id parent lsn (b ∷ siblings) s = do
    let others = redistribute p page_id page parent_id parent lsn siblings s
    moved ← try_redistribute_slots p b.is_left b.page page parent b.separator_idx
    elim moved [
      | none ↦ others
      | some m ↦ do done ← write_redistributed p page_id b.page_id parent_id lsn m s; ok (some done)
    ]

  -- `if not parent_page.slots and parent_page_id == self.root_page_id`
  unfoldable pub collapse_root : ℕ → InternalPage → S → Result (Revisit × S)
  collapse_root parent_id parent s = do
    m ← store.get_meta s
    if length parent.slots == 0 && parent_id == m.root_page_id
        then (do
          s₁ ← store.set_root parent.leftmost_child_page_id s
          s₂ ← store.free parent_id (store.forget parent_id s₁)
          ok (none, store.count (λ c. record c { root_collapses = c.root_collapses + 1 }) s₂))
        else ok (some (parent_id, parent), s)

  -- Behind the size test: the merged page stands under `into_id`.
  unfoldable pub write_merged : ℕ → TreePage → ℕ → ℕ → InternalPage → ℕ → S → Result (Revisit × S)
  unfolding collapse_root
  write_merged into_id merged from_id parent_id parent lsn s = do
    let assigned = store.assign parent_id (internal parent) (store.assign into_id merged s)
    s₁ ← store.mark_dirty into_id lsn assigned
    s₂ ← store.mark_dirty parent_id lsn s₁
    s₃ ← store.free from_id (store.forget from_id s₂)
    collapse_root parent_id (touched lsn parent) (store.count (count_merge merged) s₃)

  -- The second loop, always into the left page, and the assertion behind it.
  unfoldable pub merge :
      ℕ → ℕ → TreePage → ℕ → InternalPage → ℕ → List Sibling → S → Result (Revisit × S)
  merge p page_id page parent_id parent lsn [] s = err assertion_error
  merge p page_id page parent_id parent lsn (b ∷ siblings) s = do
    let others = merge p page_id page parent_id parent lsn siblings s
    let (into_id, from_id) = if b.is_left then (b.page_id, page_id) else (page_id, b.page_id)
    let (into, from) = if b.is_left then (b.page, page) else (page, b.page)
    merged ← probe into from parent b.separator_idx
    if overpopulated p merged
        then others
        else write_merged into_id merged from_id parent_id (without_slot b.separator_idx parent) lsn
            s

  unfoldable pub redistribute_or_merge_page :
      ℕ → Option (ℕ × Option ℕ) → TreePage → ℕ → S → Result (Revisit × S)
  unfolding redistribute merge
  redistribute_or_merge_page page_id none page lsn s = ok (none, s)
  redistribute_or_merge_page page_id (some (parent_id, parent_slot_idx)) page lsn s = do
    (fetched, s₁) ← store.fetch parent_id s
    parent ← as_internal fetched
    (left, right, s₂) ← determine_same_parent_siblings parent parent_slot_idx s₁
    m ← store.get_meta s₂
    done ← redistribute m.page_size_bytes page_id page parent_id parent lsn (left ++ right) s₂
    elim done [
      | some r ↦ ok r
      | none ↦ merge m.page_size_bytes page_id page parent_id parent lsn (left ++ right) s₂
    ]
