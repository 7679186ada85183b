-- ===== src/Db/Answers.antt =====
-- `get` and `delete` of src/bptreedb/db.py on a database whose tree is stored.
use bptreedb.Prelude.{◌≡◌, refl, ap, Bool, true, false, none, List}
use bptreedb.Exceptions.{ok}
use bptreedb.Struct.{Bytes}
use bptreedb.Tree.Store.Pool.{BPlusTree, pool_store}
use bptreedb.Tree.Slots.Lookup.{lookup}
use bptreedb.Tree.Descent.{search}
use bptreedb.Tree.Content.{Leaf, items, Stored}
use bptreedb.Tree.Content.Cached.{pool_reads}
use bptreedb.Tree.Content.Search.{search-Stored}
use bptreedb.Db.{Db, check_if_opened}
use bptreedb.Db.Api.{get, delete}

-- The database behind a read: only its tree may differ, in what the pool holds.
pub record Untouched (db db' : Db) (leaves : List Leaf) : Type 0 where
  pub stored : Stored pool_reads db'.tree leaves
  pub same_wal : db'.wal ≡ db.wal
  pub same_version : db'.version_counter ≡ db.version_counter
  pub is_opened : db'.is_opened ≡ true

-- On an open database with a stored tree: `get` returns the value under the key in the list of all items,
-- or none, and leaves the log, the version and the tree as they are.
pub get-Stored :
    (key : Bytes) (db : Db) (leaves : List Leaf)
    → db.is_opened ≡ true
    → Stored pool_reads db.tree leaves
    → (db' : Db) × (get key db ≡ ok (lookup (items leaves) key, db')) × Untouched db db' leaves
unfolding get check_if_opened
get-Stored key db leaves opened h =
    let (t, found, h') = search-Stored pool_reads key db.tree leaves h in
    (
      record db { tree = t },
      rw (opened, found),
      record { stored = h'; same_wal = refl; same_version = refl; is_opened = opened },
    )

-- On an open database whose pool holds a tree as `search` needs it: `delete` of a key that is not
-- in the tree returns False, appends nothing to the log, leaves the version as it is, and the tree
-- is stored as before.
pub delete-missing :
    (key : Bytes) (db : Db) (leaves : List Leaf)
    → db.is_opened ≡ true
    → Stored pool_reads db.tree leaves
    → lookup (items leaves) key ≡ none
    → (db' : Db) × (delete key db ≡ ok (false, db')) × Untouched db db' leaves
unfolding delete check_if_opened
delete-missing key db leaves opened h missing =
    let (t, found, h') = search-Stored pool_reads key db.tree leaves h in
    (
      record db { tree = t },
      returned_false t found,
      record { stored = h'; same_wal = refl; same_version = refl; is_opened = opened },
    )
  where
    returned_false :
        (t : BPlusTree)
        → search key db.tree ≡ ok (lookup (items leaves) key, t)
        → delete key db ≡ ok (false, record db { tree = t })
    returned_false t found =
        rw (opened, found, missing)
          (ap (λ (b : Bool). ok (false, record db { tree = t; is_opened = b })) opened)
