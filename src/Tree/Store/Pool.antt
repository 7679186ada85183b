-- ===== src/Tree/Store/Pool.antt =====
-- The pager and the buffer pool behind the interface of the tree.
use bptreedb.Prelude.{ℕ, none, some}
use bptreedb.Exceptions.{Result, ok, ◌>>=◌}
use bptreedb.Sequence.{get, put}
use bptreedb.Entities.{TreePage}
use bptreedb.Pager
use bptreedb.Pager.{Pager}
use bptreedb.Cache
use bptreedb.Cache.{BufferPool}
use bptreedb.Tree.Store.{TreeStats, PageStore}

-- `BPlusTree` with its pager and its buffer pool.
pub record BPlusTree : Type 0 where
  pub pager : Pager
  pub buffer_pool : BufferPool
  pub stats : TreeStats

abbrev pub init : Pager → BufferPool → BPlusTree
init pager buffer_pool = record {
  pager = pager;
  buffer_pool = buffer_pool;
  stats = record {
    leaf_splits = 0;
    internal_splits = 0;
    leaf_merges = 0;
    internal_merges = 0;
    leaf_redistributes = 0;
    internal_redistributes = 0;
    root_collapses = 0;
  };
}

unfoldable pub fetch : ℕ → BPlusTree → Result (TreePage × BPlusTree)
fetch page_id t = do
  (page, pool, pager) ← Cache.get_page page_id t.buffer_pool t.pager
  ok (page, record t { buffer_pool = pool; pager = pager })

-- The object in the pool has changed.
unfoldable pub assign : ℕ → TreePage → BPlusTree → BPlusTree
assign page_id page t = elim (get page_id t.buffer_pool.cached) [
  | none ↦ t
  | some c ↦ record t {
    buffer_pool = record t.buffer_pool {
      cached = put page_id (record c { page = page }) t.buffer_pool.cached;
    };
  }
]

unfoldable pub mark_dirty : ℕ → ℕ → BPlusTree → Result BPlusTree
mark_dirty page_id lsn t = do
  pool ← Cache.mark_dirty page_id lsn t.buffer_pool
  ok (record t { buffer_pool = pool })

unfoldable pub register : ℕ → TreePage → ℕ → BPlusTree → Result BPlusTree
register page_id page lsn t = do
  pool ← Cache.insert page_id page lsn t.buffer_pool
  ok (record t { buffer_pool = pool })

unfoldable pub forget : ℕ → BPlusTree → BPlusTree
forget page_id t = record t { buffer_pool = Cache.delete page_id t.buffer_pool }

unfoldable pub allocate : BPlusTree → Result (ℕ × BPlusTree)
allocate t = do
  (page_id, pager) ← Pager.allocate_page t.pager
  ok (page_id, record t { pager = pager })

unfoldable pub free : ℕ → BPlusTree → Result BPlusTree
free page_id t = do pager ← Pager.free_page page_id t.pager; ok (record t { pager = pager })

unfoldable pub set_root : ℕ → BPlusTree → Result BPlusTree
set_root page_id t = do
  pager ← Pager.update_meta (λ m. record m { root_page_id = page_id }) t.pager
  ok (record t { pager = pager })

instance abbrev pub pool_store : PageStore BPlusTree
pool_store = record {
  fetch = fetch;
  assign = assign;
  mark_dirty = mark_dirty;
  register = register;
  forget = forget;
  allocate = allocate;
  free = free;
  get_meta = λ t. Pager.get_meta t.pager;
  set_root = set_root;
  count = λ change t. record t { stats = change t.stats };
}
