-- ===== src/Tests/Database.antt =====
-- src/bptreedb/db.py on a database of one leaf.
use bptreedb.Prelude.{arith, ◌≡◌, refl, true, false, none, some, [], ◌∷◌, replicate}
use bptreedb.Exceptions.{Result, ok, err, db_concurrent_page_modification_error}
use bptreedb.Struct.{Bytes}
use bptreedb.Entities.{MetaPage, leaf}
use bptreedb.Codec.Sizes.{LeafSlot-Slot}
use bptreedb.Pager.{Pager}
use bptreedb.Cache
use bptreedb.Cache.{BufferPool}
use bptreedb.Wal
use bptreedb.Wal.{Wal}
use bptreedb.Tree.Store.Pool.{BPlusTree, pool_store}
use bptreedb.Tree.Store.Pool as Pool
use bptreedb.Tree.Scan.{Cursor, running}
use bptreedb.Db.{Db, Config}
use bptreedb.Db.Api.{DbScan, put, delete, next_item}
use bptreedb.Db.Versions.{put-next_item}
use bptreedb.Db.Answers.{Untouched, delete-missing}
use bptreedb.Keys.{eq_bytes}
use bptreedb.Tree.Slots.Lookup.{lookup}
use bptreedb.Tree.Content.{items}
use bptreedb.Sequence.{get}
use bptreedb.Cache.Freelist.{FreelistFits}
use bptreedb.Wal.Append.{Logged}
use bptreedb.Wal.Iterate.{encode_all}
use bptreedb.Db.Checkpoint.{checkpoint}
use bptreedb.Db.Durable.{CanCheckpoint, Checkpointed, checkpoint-Checkpointed}
use bptreedb.Tests.Stored.{
  small_tree, small_leaves, small-Stored, small-IsCoherent, small-IsEncodable, tree_meta,
  leaf_whole,
}

abbrev empty_meta : MetaPage
empty_meta = record {
  page_size_bytes = 128;
  root_page_id = 1;
  next_page_id = 2;
  freelist_head_page_id = 0;
  last_checkpoint_lsn = 0;
}

abbrev one_page_pager : Pager
one_page_pager = record {
  existed = true;
  file = replicate 256 0;
  is_open = true;
  page_size_bytes = 128;
  meta = some empty_meta;
  is_meta_dirty = false;
  freelist_cache = [];
  dirty_freelist_page_ids = [];
  stats = record {
    page_reads = 0;
    page_writes = 0;
    pages_allocated = 0;
    pages_freed = 0;
    pages_reused_from_freelist = 0;
    meta_flushes = 0;
    fsyncs = 0;
  };
}

abbrev one_page_pool : BufferPool
one_page_pool = record (Cache.init 4) {
  cached =
      (
        1,
        record {
          page = leaf (record { last_modified_lsn = 0; right_sibling_page_id = 0; slots = [] });
          is_dirty = false;
        },
      )
      ∷ [];
}

abbrev empty_db : Db
empty_db = record {
  config = record { checkpoint_wal_size_bytes = 4096; is_ratio_above = λ count capacity. false };
  tree = Pool.init one_page_pager one_page_pool;
  wal = record (Wal.init [] none) { is_open = true };
  is_opened = true;
  version_counter = 0;
  recovery_last_checkpoint_lsn = 0;
}

abbrev after : Result Db → Db
after (ok db) = db
after (err e) = empty_db

changed : put (1 ∷ []) (2 ∷ []) empty_db ≡ ok (after (put (1 ∷ []) (2 ∷ []) empty_db))
unfolding put bptreedb.Db.check_if_opened bptreedb.Pager.get_meta
    bptreedb.Tree.Split.raise_if_record_too_large bptreedb.Db.Checkpoint.maybe_checkpoint
    Wal.append_put Wal.append bptreedb.Codec.Wal.encode_wal_record
    bptreedb.Codec.write_length_prefixed_bytes bptreedb.Codec.write_struct bptreedb.Struct.pack
    bptreedb.Codec.write_crc32 bptreedb.Crc32.crc32 bptreedb.Tree.Cascade.Operations.insert
    bptreedb.Tree.Descent.find_leaf Pool.fetch Cache.get_page bptreedb.Sequence.get
    bptreedb.Tree.Cascade.Operations.balance_and_write_tree Pool.assign bptreedb.Sequence.pop
    bptreedb.Tree.Split.is_page_overpopulated bptreedb.Codec.Sizes.calculate_page_size
    bptreedb.Tree.Slots.insert_slots bptreedb.Tree.Slots.write_slot bptreedb.Tree.Slots.slot_at
    bptreedb.Tree.Slots.insort bptreedb.Tree.Slots.bisect_right bptreedb.Tree.Bisect.bisect
    bptreedb.Tree.Split.is_page_underpopulated Pool.mark_dirty Cache.mark_dirty
    bptreedb.Sequence.put
changed = refl

-- A scan that has handed out its last item.
abbrev last_cursor : Cursor
last_cursor = record { slots = []; right_sibling_page_id = 0; has_yielded = true }

abbrev old_scan : DbScan
old_scan = record {
  end_key_exclusive = none;
  version_snapshot = 0;
  generator = running last_cursor;
}

put-next_item_example :
    next_item old_scan (after (put (1 ∷ []) (2 ∷ []) empty_db))
    ≡ err db_concurrent_page_modification_error
put-next_item_example =
    put-next_item (1 ∷ []) (2 ∷ []) old_scan last_cursor empty_db
      (after (put (1 ∷ []) (2 ∷ []) empty_db)) changed refl refl refl

-- A database with a root and two leaves.
abbrev small_db : Db
small_db = record empty_db { tree = small_tree }

four_missing : lookup (items small_leaves) (4 ∷ []) ≡ none
unfolding items lookup eq_bytes
four_missing = refl

delete-missing_example :
    (db' : Db) × (delete (4 ∷ []) small_db ≡ ok (false, db')) × Untouched small_db db' small_leaves
delete-missing_example =
    delete-missing (4 ∷ []) small_db small_leaves refl small-Stored four_missing

no_records : Logged small_db.wal []
unfolding encode_all
no_records = record { first = 1; opened = refl; holds = refl; sequential = tt; current = refl }

no_freelist : FreelistFits small_tree.pager
unfolding get
no_freelist k page at = cc

small-CanCheckpoint : CanCheckpoint small_db [] tree_meta
small-CanCheckpoint = record {
  logged = no_records;
  coherent = small-IsCoherent;
  encodable = small-IsEncodable;
  ready = record { is_open = refl; has_first = omega (arith, leaf_whole) };
  freelist_fits = no_freelist;
  has_meta = refl;
  same_size = refl;
  meta_fits = record {
    room = omega arith;
    size_fits = omega arith;
    root_fits = omega arith;
    next_fits = omega arith;
    head_fits = omega arith;
    lsn_fits = omega arith;
  };
}

checkpoint-Checkpointed_example :
    (db' : Db) × (checkpoint small_db ≡ ok db') × Checkpointed small_db tree_meta 1 db'
checkpoint-Checkpointed_example = checkpoint-Checkpointed small_db [] tree_meta small-CanCheckpoint
