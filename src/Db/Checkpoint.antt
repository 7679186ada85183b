-- ===== src/Db/Checkpoint.antt =====
-- `checkpoint` and `_maybe_checkpoint` of src/bptreedb/db.py.
use bptreedb.Prelude.{ℕ, ◌+◌, Bool, true, ltb, if◌then◌else◌}
use bptreedb.Exceptions.{Result, ok, zero_division_error, ◌>>=◌, ◌>>◌, guard}
use bptreedb.Pager
use bptreedb.Cache
use bptreedb.Cache.{dirty_count}
use bptreedb.Wal.{size_bytes, append_checkpoint, truncate_before}
use bptreedb.Tree.Store.Pool.{BPlusTree}
use bptreedb.Db.{Db, returned}

-- The pages, the freelist and their sync.
unfoldable pub flush_pages : BPlusTree → Result BPlusTree
flush_pages t = do
  (pool, pager) ← Cache.flush_all t.buffer_pool t.pager
  pager' ← Pager.flush_dirty_freelist_pages pager
  pager'' ← Pager.fsync pager'
  ok (record t { buffer_pool = pool; pager = pager'' })

-- The meta page with the LSN of the checkpoint, and its sync.
unfoldable pub flush_checkpoint_lsn : ℕ → Pager.Pager → Result Pager.Pager
flush_checkpoint_lsn lsn pager = do
  pager' ← Pager.update_meta (λ m. record m { last_checkpoint_lsn = lsn }) pager
  pager'' ← Pager.flush_meta pager'
  Pager.fsync pager''

unfoldable pub checkpoint : Db → Result Db
unfolding flush_pages flush_checkpoint_lsn
checkpoint db = do
  let checkpoint_lsn = db.wal.current_lsn + 1
  t ← flush_pages db.tree
  meta ← Pager.get_meta t.pager
  (lsn, wal) ←
      append_checkpoint meta.root_page_id meta.freelist_head_page_id meta.next_page_id db.wal
  pager ← flush_checkpoint_lsn checkpoint_lsn t.pager
  let truncated = truncate_before checkpoint_lsn wal
  returned truncated.0
  ok (record db { tree = record t { pager = pager }; wal = truncated.1 })

-- A pool of no pages has no ratio.
unfoldable pub should_checkpoint : Db → Result Bool
should_checkpoint db =
    if ltb db.config.checkpoint_wal_size_bytes (size_bytes db.wal) then ok true else (do
      let capacity = db.tree.buffer_pool.capacity_pages
      guard (ltb 0 capacity) zero_division_error
      ok (db.config.is_ratio_above (dirty_count db.tree.buffer_pool) capacity))

unfoldable pub maybe_checkpoint : Db → Result Db
unfolding should_checkpoint
maybe_checkpoint db = do should ← should_checkpoint db; if should then checkpoint db else ok db
