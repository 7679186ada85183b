-- ===== src/Db/Versions.antt =====
-- The version check of `scan` in src/bptreedb/db.py behind a change of the database.
use bptreedb.Prelude.{
  ℕ, ◌+◌, ◌≡◌, sym, ap, ◌∙◌, Bool, true, false, Option, none, some, arith, ◌==◌, Bool-cases, inl,
  inr,
}
use bptreedb.Exceptions.{
  Result, ok, err, db_concurrent_page_modification_error, >>=-eq-ok, ok-injective, guard,
}
use bptreedb.Struct.{Bytes}
use bptreedb.Pager
use bptreedb.Wal.{append_put, append_delete, append_checkpoint}
use bptreedb.Tree.Split.{raise_if_record_too_large}
use bptreedb.Tree.Store.Pool.{BPlusTree, pool_store}
use bptreedb.Tree.Descent.{search}
use bptreedb.Tree.Cascade.Operations
use bptreedb.Tree.Scan.{Cursor, running, next}
use bptreedb.Db.{Db, check_if_opened, returned}
use bptreedb.Db.Checkpoint.{
  flush_pages, flush_checkpoint_lsn, checkpoint, should_checkpoint, maybe_checkpoint,
}
use bptreedb.Db.Api.{DbScan, put, delete, delete_found, check_version, next_item}

checkpoint_version :
    (db db' : Db) → checkpoint db ≡ ok db' → db'.version_counter ≡ db.version_counter
unfolding checkpoint
checkpoint_version db db' h =
    let (t, _, h₁) = >>=-eq-ok (flush_pages db.tree) _ h in
    let (meta, _, h₂) = >>=-eq-ok (Pager.get_meta t.pager) _ h₁ in
    let (w, _, h₃) =
      >>=-eq-ok
        (append_checkpoint meta.root_page_id meta.freelist_head_page_id meta.next_page_id db.wal) _
        h₂ in
    let (pager, _, h₄) = >>=-eq-ok (flush_checkpoint_lsn (db.wal.current_lsn + 1) t.pager) _ h₃ in
    let (_, _, h₅) = >>=-eq-ok (returned _) _ h₄ in
    sym (ap (λ (d : Db). d.version_counter) (ok-injective h₅))

maybe_checkpoint_version :
    (db db' : Db) → maybe_checkpoint db ≡ ok db' → db'.version_counter ≡ db.version_counter
unfolding maybe_checkpoint
maybe_checkpoint_version db db' h =
    let (should, _, h₁) = >>=-eq-ok (should_checkpoint db) _ h in
    elim (Bool-cases should) [
      | inl y ↦ checkpoint_version db db' (rw y at h₁)
      | inr n ↦
          (let h₂ : ok db ≡ ok db' = rw n at h₁ in
            sym (ap (λ (d : Db). d.version_counter) (ok-injective h₂)))
    ]

put_version :
    (key value : Bytes) (db db' : Db)
    → put key value db ≡ ok db'
    → db'.version_counter ≡ db.version_counter + 1
unfolding put
put_version key value db db' h =
    let (_, _, h₁) = >>=-eq-ok (check_if_opened db) _ h in
    let (m, _, h₂) = >>=-eq-ok (Pager.get_meta db.tree.pager) _ h₁ in
    let (_, _, h₃) = >>=-eq-ok (raise_if_record_too_large m.page_size_bytes key value) _ h₂ in
    let (db₁, e₁, h₄) = >>=-eq-ok (maybe_checkpoint db) _ h₃ in
    let (w, _, h₅) = >>=-eq-ok (append_put key value db₁.wal) _ h₄ in
    let (t, _, h₆) = >>=-eq-ok (Operations.insert key value w.0 db₁.tree) _ h₅ in
    maybe_checkpoint_version _ db' h₆ ∙ ap (λ n. n + 1) (maybe_checkpoint_version db db₁ e₁)

delete_found_version :
    (key : Bytes) (db db' : Db) (done : Bool)
    → delete_found key db ≡ ok (done, db')
    → db'.version_counter ≡ db.version_counter + 1
unfolding delete_found
delete_found_version key db db' done h =
    let (db₁, e₁, h₁) = >>=-eq-ok (maybe_checkpoint db) _ h in
    let (w, _, h₂) = >>=-eq-ok (append_delete key db₁.wal) _ h₁ in
    let (t, _, h₃) = >>=-eq-ok (Operations.delete key w.0 db₁.tree) _ h₂ in
    let (_, _, h₄) = >>=-eq-ok (guard t.0 _) _ h₃ in
    let (db₂, e₂, h₅) = >>=-eq-ok (maybe_checkpoint _) _ h₄ in
    ap (λ (r : Bool × Db). r.1.version_counter) (sym (ok-injective h₅))
    ∙ maybe_checkpoint_version _ db₂ e₂
    ∙ ap (λ n. n + 1) (maybe_checkpoint_version db db₁ e₁)

delete_version :
    (key : Bytes) (db db' : Db)
    → delete key db ≡ ok (true, db')
    → db'.version_counter ≡ db.version_counter + 1
unfolding delete
delete_version key db db' h =
    let (_, _, h₁) = >>=-eq-ok (check_if_opened db) _ h in
    let (found, _, h₂) = >>=-eq-ok (search key db.tree) _ h₁ in behind found.0 found.1 h₂
  where
    behind :
        (value : Option Bytes) (t : BPlusTree)
        → elim value as (λ x. Result (Bool × Db)) [
          | none ↦ ok (false, record db { tree = t })
          | some _ ↦ delete_found key (record db { tree = t })
        ]
          ≡ ok (true, db')
        → db'.version_counter ≡ db.version_counter + 1
    behind none t e = cc
    behind (some v) t e = delete_found_version key (record db { tree = t }) db' true e

-- A generator that has handed out an item, of the version before.
next_item_raises :
    (g : DbScan) (c : Cursor) (db : Db) (n : ℕ)
    → g.generator ≡ running c
    → c.has_yielded ≡ true
    → g.version_snapshot ≡ n
    → db.version_counter ≡ n + 1
    → next_item g db ≡ err db_concurrent_page_modification_error
unfolding next_item check_version next
next_item_raises g c db n at yielded before after =
    let changed : (g.version_snapshot == db.version_counter) ≡ false =
      ground (arith, before, after) in
    rw (at, yielded, changed)

-- Behind a `put` that succeeds, the next step of a scan that was created at the version before it
-- and that has handed out an item raises `DBConcurrentPageModificationError`.
pub put-next_item :
    (key value : Bytes) (g : DbScan) (c : Cursor) (db db' : Db)
    → put key value db ≡ ok db'
    → g.generator ≡ running c
    → c.has_yielded ≡ true
    → g.version_snapshot ≡ db.version_counter
    → next_item g db' ≡ err db_concurrent_page_modification_error
put-next_item key value g c db db' h at yielded same =
    next_item_raises g c db' db.version_counter at yielded same (put_version key value db db' h)

-- Behind a `delete` that returns True, the next step of a scan that was created at the version before it
-- and that has handed out an item raises `DBConcurrentPageModificationError`.
pub delete-next_item :
    (key : Bytes) (g : DbScan) (c : Cursor) (db db' : Db)
    → delete key db ≡ ok (true, db')
    → g.generator ≡ running c
    → c.has_yielded ≡ true
    → g.version_snapshot ≡ db.version_counter
    → next_item g db' ≡ err db_concurrent_page_modification_error
delete-next_item key g c db db' h at yielded same =
    next_item_raises g c db' db.version_counter at yielded same (delete_version key db db' h)
