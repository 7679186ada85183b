-- ===== src/Tree/Descent.antt =====
-- `_find_leaf` and `search` of src/bptreedb/tree.py.
use bptreedb.Prelude.{ℕ, zero, suc, Option, none, some, List, [], ◌∷◌, ◌++◌}
use bptreedb.Exceptions.{Result, ok, err, index_error, out_of_rounds, ◌>>=◌}
use bptreedb.Struct.{Bytes}
use bptreedb.Entities.{LeafPage, InternalPage, TreePage, leaf, internal}
use bptreedb.Codec.Sizes.{InternalSlot-Slot}
use bptreedb.Tree.Slots.{bisect_right, child_of_place, child_at, search_slots}
use bptreedb.Tree.Store.{PageStore}

-- The index is `none` for -1, the leftmost child.
pub record PathItem : Type 0 where
  pub parent_page_id : ℕ
  pub parent_slot_index : Option ℕ

pub record LeafSearchResult : Type 0 where
  pub leaf_page_id : ℕ
  pub leaf_page : LeafPage
  pub path : List PathItem

-- `path.append(...)`
abbrev pub step : ℕ → InternalPage → Bytes → List PathItem → List PathItem
step page_id page key path =
    path
    ++ record {
      parent_page_id = page_id;
      parent_slot_index = child_of_place (bisect_right page.slots key);
    }
      ∷ []

unfoldable pub child_of : InternalPage → Bytes → Result ℕ
child_of page key = elim (child_at page (child_of_place (bisect_right page.slots key))) [
  | none ↦ err index_error
  | some child_page_id ↦ ok child_page_id
]

module _ {S : Type 0} ⦃store : PageStore S⦄ where
  -- The `while` loop. A path in a tree is shorter than the number of pages, which bounds the rounds.
  unfoldable pub descend :
      ℕ → ℕ → TreePage → Bytes → List PathItem → S → Result (LeafSearchResult × S)
  descend rounds page_id (leaf page) key path s =
      ok (record { leaf_page_id = page_id; leaf_page = page; path = path }, s)
  descend zero page_id (internal page) key path s = err out_of_rounds
  descend (suc rounds) page_id (internal page) key path s = do
    child_page_id ← child_of page key
    (child, s') ← store.fetch child_page_id s
    descend rounds child_page_id child key (step page_id page key path) s'

  unfoldable pub find_leaf : Bytes → S → Result (LeafSearchResult × S)
  unfolding descend
  find_leaf key s = do
    m ← store.get_meta s
    (page, s') ← store.fetch m.root_page_id s
    descend m.next_page_id m.root_page_id page key [] s'

  unfoldable pub search : Bytes → S → Result (Option Bytes × S)
  search key s = do (found, s') ← find_leaf key s; ok (search_slots found.leaf_page.slots key, s')
