-- ===== src/Db.antt =====
-- src/bptreedb/db.py: the database over the log, the pager, the buffer pool and the tree. Arguments that
-- are no `bytes` cannot be written here, so `_ensure_bytes_type` has no part. The paths and directories
-- are those of the two files.
pub mod Checkpoint
pub mod Recovery
pub mod Api
pub mod Answers
pub mod Durable
pub mod Versions
use bptreedb.Prelude.{ℕ, Bool, true, false, ◌||◌, ltb, ◌==◌, if◌then◌else◌, length, List, []}
use bptreedb.Exceptions.{
  Result, ok, err, db_closed_error, zero_division_error, out_of_rounds, ◌>>=◌, guard,
}
use bptreedb.Pager
use bptreedb.Pager.{Pager}
use bptreedb.Cache
use bptreedb.Wal
use bptreedb.Wal.{Wal, Outcome, finished, raised, out_of_fuel}
use bptreedb.Tree.Store.Pool.{BPlusTree}
use bptreedb.Tree.Store.Pool as Pool

-- `dirty_ratio > checkpoint_dirty_page_ratio` compares two floats: `is_ratio_above count capacity` is the
-- outcome for that ratio.
pub record Config : Type 0 where
  pub checkpoint_wal_size_bytes : ℕ
  pub is_ratio_above : ℕ → ℕ → Bool

-- The tree holds the pager and the buffer pool.
pub record Db : Type 0 where
  pub config : Config
  pub tree : BPlusTree
  pub wal : Wal
  pub is_opened : Bool
  pub version_counter : ℕ
  pub recovery_last_checkpoint_lsn : ℕ

-- `DB(data_dir, ...)` on a directory with a data file (or none), a log and a temporary log.
unfoldable pub init : Pager → ℕ → Config → Wal → Db
init pager cache_capacity_pages config wal = record {
  config = config;
  tree = Pool.init pager (Cache.init cache_capacity_pages);
  wal = wal;
  is_opened = false;
  version_counter = 0;
  recovery_last_checkpoint_lsn = 0;
}

-- `_check_if_opened`
unfoldable pub check_if_opened : Db → Result (Unit {0})
check_if_opened db = guard db.is_opened db_closed_error

-- How a call on the log ends, as a call that returns or raises.
unfoldable pub returned : Outcome → Result (Unit {0})
returned finished = ok tt
returned (raised e) = err e
returned out_of_fuel = err out_of_rounds

abbrev pub set_pager : Pager → Db → Db
set_pager pager db = record db { tree = record db.tree { pager = pager } }
