-- ===== src/Db/Recovery.antt =====
-- `open`, `_recover`, `_repair_pager_meta_from_wal_checkpoint`, `_apply_wal_record` and `close` of
-- src/bptreedb/db.py. If the recovery raises, the files are closed and the exception goes on.
use bptreedb.Prelude.{
  ℕ, Bool, true, false, not, Option, none, some, List, [], ◌∷◌, ltb, leb, if◌then◌else◌,
}
use bptreedb.Exceptions.{Result, ok, err, ◌>>=◌, ◌>>◌}
use bptreedb.Entities.{WalRecord, put_record, delete_record, checkpoint_record, lsn}
use bptreedb.Pager
use bptreedb.Pager.{Pager, open_pager}
use bptreedb.Wal
use bptreedb.Wal.{Wal, Outcome, finished, raised, out_of_fuel, open_wal, iter_records, replay}
use bptreedb.Tree.Store.Pool.{BPlusTree, pool_store}
use bptreedb.Tree.Cascade.Operations.{insert, delete}
use bptreedb.Db.{Db, returned, set_pager}
use bptreedb.Db.Checkpoint.{checkpoint}

-- The latest of the checkpoints in the log, over those that were seen before.
unfoldable pub latest_checkpoint : List (WalRecord × ℕ) → Option WalRecord → Option WalRecord
latest_checkpoint [] latest = latest
latest_checkpoint ((checkpoint_record n root head next, _) ∷ rs) none =
    latest_checkpoint rs (some (checkpoint_record n root head next))
latest_checkpoint ((checkpoint_record n root head next, _) ∷ rs) (some latest) =
    latest_checkpoint rs
      (if ltb (lsn latest) n then some (checkpoint_record n root head next) else some latest)
latest_checkpoint (_ ∷ rs) latest = latest_checkpoint rs latest

-- The meta page takes the fields of a newer checkpoint.
unfoldable pub repair_from : Option WalRecord → Pager → Result Pager
repair_from (some (checkpoint_record n root head next)) pager = do
  m ← Pager.get_meta pager
  if leb n m.last_checkpoint_lsn
      then ok pager
      else Pager.update_meta
          (λ m'. record m' {
            root_page_id = root;
            freelist_head_page_id = head;
            next_page_id = next;
            last_checkpoint_lsn = n;
          })
          pager
repair_from _ pager = ok pager

-- The records are read to their end before the meta page is changed.
unfoldable pub repair_pager_meta_from_wal_checkpoint : Wal → Pager → Result Pager
unfolding latest_checkpoint repair_from
repair_pager_meta_from_wal_checkpoint wal pager = do
  m ← Pager.get_meta pager
  returned (iter_records wal.file).1
  repair_from (latest_checkpoint (iter_records wal.file).0 none) pager

-- `_apply_wal_record`, over the LSN of the last checkpoint.
unfoldable pub redo : WalRecord → BPlusTree → Result BPlusTree
redo (put_record n key value) t = insert key value n t
redo (delete_record n key) t = do (was_deleted, t') ← delete key n t; ok t'
redo (checkpoint_record n root head next) t = ok t

unfoldable pub apply_wal_record : ℕ → WalRecord → BPlusTree → Result BPlusTree
apply_wal_record last_checkpoint_lsn r t =
    if leb (lsn r) last_checkpoint_lsn then ok t else redo r t

-- As a callback of `replay`: if it raises, the tree is not used again.
unfoldable pub callback : ℕ → WalRecord → BPlusTree → Result (Unit {0}) × BPlusTree
callback n r t = elim (apply_wal_record n r t) [ ok t' ↦ (ok tt, t') | err e ↦ (err e, t) ]

abbrev pub with_eviction : Bool → BPlusTree → BPlusTree
with_eviction enabled t = record t {
  buffer_pool = record t.buffer_pool { eviction_enabled = enabled };
}

unfoldable pub recover : Db → Result Db
unfolding apply_wal_record callback repair_pager_meta_from_wal_checkpoint
recover db = do
  pager ← repair_pager_meta_from_wal_checkpoint db.wal db.tree.pager
  m ← Pager.get_meta pager
  let previous = db.tree.buffer_pool.eviction_enabled
  let t = with_eviction false (record db.tree { pager = pager })
  let (outcome, (wal, t')) = replay (callback m.last_checkpoint_lsn) db.wal t
  returned outcome
  checkpoint (record db {
    tree = with_eviction previous t';
    wal = wal;
    recovery_last_checkpoint_lsn = m.last_checkpoint_lsn;
  })

unfoldable pub open_db : Db → Result Db
open_db db = do
  pager ← open_pager db.tree.pager
  db' ← recover (record (set_pager pager db) { wal = open_wal db.wal })
  ok (record db' { is_opened = true })

-- Both files are closed behind a last checkpoint.
unfoldable pub close : Db → Result Db
close db = if not db.is_opened then ok db else (do
  db' ← checkpoint db
  pager ← Pager.close db'.tree.pager
  ok (record (set_pager pager db') {
    wal = Wal.close db'.wal;
    is_opened = false;
    version_counter = 0;
  }))
