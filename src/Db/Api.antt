-- ===== src/Db/Api.antt =====
-- `put`, `get`, `delete` and `scan` of src/bptreedb/db.py.
use bptreedb.Prelude.{ℕ, ◌+◌, Bool, true, false, Option, none, some, ◌==◌}
use bptreedb.Exceptions.{
  Result, ok, assertion_error, db_concurrent_page_modification_error, ◌>>=◌, ◌>>◌, guard,
}
use bptreedb.Struct.{Bytes}
use bptreedb.Entities.{LeafSlot}
use bptreedb.Pager
use bptreedb.Wal.{append_put, append_delete}
use bptreedb.Tree.Split.{raise_if_record_too_large}
use bptreedb.Tree.Store.Pool.{pool_store}
use bptreedb.Tree.Descent.{search}
use bptreedb.Tree.Cascade.Operations
use bptreedb.Tree.Scan.{Scan, unstarted, next}
use bptreedb.Db.{Db, check_if_opened}
use bptreedb.Db.Checkpoint.{maybe_checkpoint}

unfoldable pub put : Bytes → Bytes → Db → Result Db
put key value db = do
  check_if_opened db
  m ← Pager.get_meta db.tree.pager
  raise_if_record_too_large m.page_size_bytes key value
  db₁ ← maybe_checkpoint db
  (n, wal) ← append_put key value db₁.wal
  t ← Operations.insert key value n db₁.tree
  maybe_checkpoint (record db₁ { wal = wal; tree = t; version_counter = db₁.version_counter + 1 })

unfoldable pub get : Bytes → Db → Result (Option Bytes × Db)
get key db = do
  check_if_opened db
  (value, t) ← search key db.tree
  ok (value, record db { tree = t })

-- Behind a search that has found the key.
unfoldable pub delete_found : Bytes → Db → Result (Bool × Db)
delete_found key db = do
  db₁ ← maybe_checkpoint db
  (n, wal) ← append_delete key db₁.wal
  (was_deleted, t) ← Operations.delete key n db₁.tree
  guard was_deleted assertion_error
  db₂ ←
      maybe_checkpoint
        (record db₁ { wal = wal; tree = t; version_counter = db₁.version_counter + 1 })
  ok (true, db₂)

unfoldable pub delete : Bytes → Db → Result (Bool × Db)
unfolding delete_found
delete key db = do
  check_if_opened db
  (value, t) ← search key db.tree
  let found = delete_found key (record db { tree = t })
  elim value [ none ↦ ok (false, record db { tree = t }) | some _ ↦ found ]

-- The generator of `scan`, with the version that the database had then.
pub record DbScan : Type 0 where
  pub end_key_exclusive : Option Bytes
  pub version_snapshot : ℕ
  pub generator : Scan

unfoldable pub scan : Option Bytes → Option Bytes → Db → Result DbScan
scan start_key_inclusive end_key_exclusive db = do
  check_if_opened db
  ok (record {
    end_key_exclusive = end_key_exclusive;
    version_snapshot = db.version_counter;
    generator = unstarted start_key_inclusive;
  })

unfoldable pub check_version : DbScan → Db → Result (Unit {0})
check_version g db =
    guard (g.version_snapshot == db.version_counter) db_concurrent_page_modification_error

-- `next(generator)`
unfoldable pub next_item : DbScan → Db → Result (Option LeafSlot × DbScan × Db)
unfolding check_version
next_item g db = do
  (item, generator, t) ← next g.end_key_exclusive (check_version g db) g.generator db.tree
  ok (item, record g { generator = generator }, record db { tree = t })
