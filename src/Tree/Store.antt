-- ===== src/Tree/Store.antt =====
-- What `BPlusTree` of src/bptreedb/tree.py calls of the pager and the buffer pool, as an interface.
pub mod Pool
use bptreedb.Prelude.{ℕ, ◌+◌}
use bptreedb.Exceptions.{Result, ok, err, assertion_error}
use bptreedb.Entities.{MetaPage, LeafPage, InternalPage, TreePage, leaf, internal}

pub record TreeStats : Type 0 where
  pub leaf_splits : ℕ
  pub internal_splits : ℕ
  pub leaf_merges : ℕ
  pub internal_merges : ℕ
  pub leaf_redistributes : ℕ
  pub internal_redistributes : ℕ
  pub root_collapses : ℕ

-- A page that is fetched is an object that the pool may hold, too. `assign` is what an assignment to
-- its fields does to the pool: the cached object is the changed one, if the page is still cached.
-- An operation holds a page under its ID at most once. After an exception the state is not used.
pub record PageStore (S : Type 0) : Type 0 where
  -- `buffer_pool.get`, `buffer_pool.mark_dirty`, `buffer_pool.insert`, `buffer_pool.delete`
  pub fetch : ℕ → S → Result (TreePage × S)
  pub assign : ℕ → TreePage → S → S
  pub mark_dirty : ℕ → ℕ → S → Result S
  pub register : ℕ → TreePage → ℕ → S → Result S
  pub forget : ℕ → S → S
  -- `pager.allocate_page`, `pager.free_page`, `pager.get_meta`, `pager.update_meta(root_page_id=...)`
  pub allocate : S → Result (ℕ × S)
  pub free : ℕ → S → Result S
  pub get_meta : S → Result MetaPage
  pub set_root : ℕ → S → Result S
  -- `self.stats.<field> += 1`
  pub count : (TreeStats → TreeStats) → S → S

-- `assert isinstance(page, LeafPage)` and `assert isinstance(page, InternalPage)`
unfoldable pub as_leaf : TreePage → Result LeafPage
as_leaf (leaf page) = ok page
as_leaf (internal page) = err assertion_error

unfoldable pub as_internal : TreePage → Result InternalPage
as_internal (internal page) = ok page
as_internal (leaf page) = err assertion_error
