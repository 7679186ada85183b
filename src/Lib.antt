-- ===== src/Lib.antt =====
-- bptreedb: a database engine in Python with a write-ahead log and a B+ tree in a paged file.
--
-- The parts. A change of the database is first appended to the write-ahead log and synced
-- (src/bptreedb/wal.py), then made in the B+ tree (src/bptreedb/tree.py), whose pages a buffer pool
-- keeps in memory until a checkpoint writes them through the pager (src/bptreedb/pager.py) to the data
-- file. The pager owns the meta page and the list of free pages. The codec (src/bptreedb/codec.py)
-- turns log records and pages into bytes and back; the entities (src/bptreedb/entities.py) are those
-- records and pages. When a database is opened, the log is replayed into the tree.
--
-- The files.
--   Prelude, Prelude/*: numbers, integers, tests and lists that all modules share.
--   Exceptions: src/bptreedb/exceptions.py; a function that may raise returns a `Result`.
--   Entities: src/bptreedb/entities.py, a record or data type for each class.
--   Keys, Sequence, Struct, Crc32: what the engine uses of Python's bytes, lists, dicts and sets, of
--     `struct` and of `zlib.crc32`, as executable definitions. Struct/RoundTrip has their laws.
--   Codec: the formats, `BufferReader`, `BufferWriter` and `verify_crc32` of src/bptreedb/codec.py.
--     Codec/Wal has the log records, Codec/Meta the meta page, Codec/Page the pages of the tree and
--     of the freelist, Codec/Sizes the size functions.
--   Wal: src/bptreedb/wal.py. `Wal` is the object with its two files; `append`, `replay`,
--     `truncate_before` and the others take the state before and return the state behind the call, and
--     `iter_records` is the list that the generator `_iter_records` yields, with how it ends. Wal/Iterate,
--     Wal/Tails, Wal/Append, Wal/Replay, Wal/Truncate and Wal/Recovery are about these.
--   Pager: src/bptreedb/pager.py, with the data file as bytes. Pager/Pages is about reading and
--     writing, Pager/Freelist about freeing and allocating.
--   Cache: src/bptreedb/cache.py, over the pager. Cache/Eviction is about what leaves the pool,
--     Cache/Places about the dict of pages, Cache/Room about evictions from a pool with room, Cache/Disk
--     about the pages in the data file, Cache/Clean and Cache/Flush about `flush_all`, Cache/Freelist about
--     `flush_dirty_freelist_pages` beside it.
--   Tree: the methods of src/bptreedb/tree.py on the pages that they are handed. Tree/Bisect is the
--     binary search, Tree/Slots what `search`, `insert`, `delete` do with a leaf's slots and how
--     `_find_leaf` chooses a child, Tree/Split `_choose_split_point` and `_split_page`, Tree/Rebalance
--     `_try_redistribute_slots` and the merged pages of `_redistribute_or_merge_page`.
--   Tree/Store: what these methods call of the pager and the buffer pool, as an interface; Tree/Store/Pool
--     is `BPlusTree` with its pager and pool, which fills it. Over the interface, Tree/Descent is
--     `_find_leaf` and `search`, Tree/Cascade `_split_page`, `_determine_same_parent_siblings`,
--     `_redistribute_or_merge_page`, `_balance_and_write_tree`, `insert` and `delete`, Tree/Scan `scan`.
--   Tree/Content: what it is for a store to hold a tree with certain leaves. Tree/Content/Cached is about
--     the pool as such a store, Tree/Content/Search about `search`, Tree/Content/Collect about `scan`, and
--     the other children are steps to them.
--   Db: src/bptreedb/db.py. Db/Checkpoint is `checkpoint` and `_maybe_checkpoint`, Db/Recovery `open`,
--     `_recover`, `_apply_wal_record` and `close`, Db/Api `put`, `get`, `delete` and `scan`. Db/Answers,
--     Db/Durable and Db/Versions are about these.
--   Tests: runs at concrete inputs, and the results at inputs that meet their hypotheses.
--
-- Bounds and fuel. Numbers are natural numbers; a field of w bits takes those below 2^w, and packing
-- any other raises `struct.error`, as in Python. `iter_loop` gets a round for each byte of the file and
-- one more: each round reads four bytes at least. `redistribute_loop` gets a round for each slot of the
-- donor and one more: each round takes one away. The binary search gets as many rounds as its range is
-- long. A threshold of 0.4 pages is compared as 5 * size < 2 * page size. The descent gets as many
-- rounds as there are page IDs, and so does the walk along the leaves: neither comes to a page twice in
-- a tree. The cascade behind a change gets two rounds more than the path has steps, one for the page
-- itself and one for the page above a new root.
--
-- How the state is kept. A page that `get` returns is the object in the pool. `assign` of Tree/Store
-- stands for an assignment to that object's fields: the pool's page changes if the page is still cached.
-- Where a function raises, the state that it leaves behind is not described, but for the log, whose
-- calls return it.
--
-- Not modelled. src/bptreedb/fs.py is system calls: a sync is only counted, and a crash is a file that
-- ends early. src/bptreedb/debug.py is a checker for tests, scripts/bench.py a benchmark. Exceptions carry
-- no messages; paths, file handles and context managers are left out, and a failed file operation is none
-- of the errors. Whether the share of dirty pages is above the configured ratio is a comparison of floats:
-- the configuration of Db has its outcome, `is_ratio_above`, as a function. Arguments are always `bytes`.
pub mod Prelude
pub mod Exceptions
pub mod Crc32
pub mod Struct
pub mod Entities
pub mod Codec
pub mod Keys
pub mod Wal
pub mod Sequence
pub mod Pager
pub mod Cache
pub mod Db
pub mod Tree
mod Tests
