-- ===== src/Db/Durable.antt =====
-- A whole `checkpoint` of src/bptreedb/db.py.
use bptreedb.Prelude.{
  ℕ, ◌+◌, ◌<◌, ◌≡◌, ◌^◌, refl, sym, ap, subst, ◌∙◌, true, false, none, some, List, [], ◌∷◌, ◌++◌,
  arith, length-append, ◌==◌,
}
use bptreedb.Exceptions.{ok, ◌>>◌, guard, assertion_error}
use bptreedb.Entities.{MetaPage, TreePage, WalRecord, checkpoint_record}
use bptreedb.Codec.Meta as Meta
use bptreedb.Codec.Meta.{encode_meta_page, decode-encode_meta}
use bptreedb.Codec.Wal.Length.{encode_wal_record-Fits}
use bptreedb.Pager.{Pager, get_meta, update_meta, flush_meta, fsync}
use bptreedb.Cache.{get_dirty_page_ids}
use bptreedb.Cache.Disk.{on_disk, on_disk-other, written}
use bptreedb.Cache.Clean.{IsReady, IsEncodable}
use bptreedb.Cache.Flush.{flush_all-Flushed, write_page-written}
use bptreedb.Sequence.{get}
use bptreedb.Cache.Freelist.{FreelistFits, flush_freelist-FreelistFlushed}
use bptreedb.Codec.Page.RoundTrip.{FitsFreelist}
use bptreedb.Wal.{Wal, appended, append_checkpoint, truncate_before, finished}
use bptreedb.Wal.Append.{Logged, append-Logged}
use bptreedb.Wal.Truncate.{truncate_before_log, kept_from-last}
use bptreedb.Tree.Store.Pool.{BPlusTree}
use bptreedb.Tree.Content.Cached.{IsCoherent, pages_of}
use bptreedb.Db.{Db, returned}
use bptreedb.Db.Checkpoint.{flush_pages, flush_checkpoint_lsn, checkpoint}

-- `flush_pages`: the pages of the tree come to disk, where no freelist page stands in their place.
record PagesFlushed (t t' : BPlusTree) : Type 0 where
  none_dirty : get_dirty_page_ids t'.buffer_pool.cached ≡ []
  is_ready : IsReady t'.pager
  same_size : t'.pager.page_size_bytes ≡ t.pager.page_size_bytes
  same_meta : t'.pager.meta ≡ t.pager.meta
  stored :
      (i : ℕ) (page : TreePage)
      → get i t.pager.freelist_cache ≡ none
      → pages_of t i ≡ some page
      → on_disk t'.pager i ≡ some page

abbrev synced : Pager → Pager
synced p = record p { stats = record p.stats { fsyncs = p.stats.fsyncs + 1 } }

fsync_open : (p : Pager) → p.is_open ≡ true → fsync p ≡ ok (synced p)
unfolding fsync
fsync_open p h = ap (λ b. guard b assertion_error >> ok (synced p)) h

FreelistFits-same :
    (p p' : Pager)
    → p'.freelist_cache ≡ p.freelist_cache
    → p'.page_size_bytes ≡ p.page_size_bytes
    → FreelistFits p
    → FreelistFits p'
FreelistFits-same p p' cache size fits k page at =
    subst (λ n. FitsFreelist n page) (sym size) (fits k page (sym (ap (get k) cache) ∙ at))

flush_pages-PagesFlushed :
    (t : BPlusTree)
    → IsCoherent t
    → IsEncodable t.pager.page_size_bytes t.buffer_pool.cached
    → IsReady t.pager
    → FreelistFits t.pager
    → (t' : BPlusTree) × (flush_pages t ≡ ok t') × PagesFlushed t t'
unfolding flush_pages pages_of on_disk
flush_pages-PagesFlushed t h fits ready free_fits =
    let (pool, count, p, run, f, _) =
      flush_all-Flushed t.buffer_pool t.pager h.is_unique h.is_clean fits ready in
    let (p₁, freed, e) =
      flush_freelist-FreelistFlushed p f.is_ready
        (FreelistFits-same t.pager p f.same_freelist f.same_size free_fits) in
    let sync = fsync_open p₁ e.is_ready.is_open in
    (
      record t { buffer_pool = pool; pager = synced p₁ },
      rw (run, freed, sync),
      record {
        none_dirty = f.none_dirty;
        is_ready = record { is_open = e.is_ready.is_open; has_first = e.is_ready.has_first };
        same_size = e.same_size ∙ f.same_size;
        same_meta = e.same_meta ∙ f.same_meta;
        stored = λ i page absent h.
            e.kept i page (ap (get i) f.same_freelist ∙ absent) (f.stored i page h);
      },
    )

-- The meta page with the LSN, on disk and synced.
abbrev with_lsn : ℕ → MetaPage → MetaPage
with_lsn n m = record m { last_checkpoint_lsn = n }

record MetaFlushed (n : ℕ) (m : MetaPage) (p p' : Pager) : Type 0 where
  meta_now : p'.meta ≡ some (with_lsn n m)
  kept :
      (i : ℕ) (page : TreePage)
      → (i == 0) ≡ false
      → on_disk p i ≡ some page
      → on_disk p' i ≡ some page

flush_checkpoint_lsn-MetaFlushed :
    (n : ℕ) (m : MetaPage) (p : Pager)
    → IsReady p
    → p.meta ≡ some m
    → m.page_size_bytes ≡ p.page_size_bytes
    → Meta.Fits (with_lsn n m)
    → (p' : Pager) × (flush_checkpoint_lsn n p ≡ ok p') × MetaFlushed n m p p'
unfolding flush_checkpoint_lsn update_meta get_meta flush_meta on_disk
flush_checkpoint_lsn-MetaFlushed n m p ready has size fits =
    let (bytes, encoded, sized, decoded) = decode-encode_meta (with_lsn n m) fits in
    let p₁ : Pager = record p { meta = some (with_lsn n m); is_meta_dirty = true } in
    let wrote = write_page-written 0 bytes p₁ ready.is_open in
    let p₂ = written 0 bytes p₁ in
    let p₃ : Pager = record p₂ {
      is_meta_dirty = false;
      stats = record p₂.stats { meta_flushes = p₂.stats.meta_flushes + 1 };
    } in
    let sync = fsync_open p₃ ready.is_open in
    (
      synced p₃,
      rw (has, encoded, wrote, sync),
      record {
        meta_now = refl;
        kept =
            λ i page apart h. on_disk-other p 0 i bytes page ready.has_first (sized ∙ size) apart h;
      },
    )

-- A database that can be checkpointed: its log holds the records `rs` and takes another one, its pool
-- and its pager are in order, and every dirty page, every cached freelist page and the meta page can be
-- encoded.
pub record CanCheckpoint (db : Db) (rs : List WalRecord) (m : MetaPage) : Type 0 where
  pub logged : Logged db.wal rs
  pub coherent : IsCoherent db.tree
  pub encodable : IsEncodable db.tree.pager.page_size_bytes db.tree.buffer_pool.cached
  pub ready : IsReady db.tree.pager
  pub freelist_fits : FreelistFits db.tree.pager
  pub has_meta : db.tree.pager.meta ≡ some m
  pub same_size : m.page_size_bytes ≡ db.tree.pager.page_size_bytes
  pub meta_fits : Meta.Fits (with_lsn (db.wal.current_lsn + 1) m)

-- What a checkpoint with the LSN `n` leaves: its record alone in the log, its LSN in the meta page, no
-- dirty page, and on disk every page that was shown before, page 0 and freelist pages aside.
pub record Checkpointed (db : Db) (m : MetaPage) (n : ℕ) (db' : Db) : Type 0 where
  pub log_cut :
      Logged db'.wal
        (checkpoint_record n m.root_page_id m.freelist_head_page_id m.next_page_id ∷ [])
  pub no_temp : db'.wal.temp ≡ none
  pub meta_now : db'.tree.pager.meta ≡ some (with_lsn n m)
  pub none_dirty : get_dirty_page_ids db'.tree.buffer_pool.cached ≡ []
  pub durable :
      (i : ℕ) (page : TreePage)
      → (i == 0) ≡ false
      → get i db.tree.pager.freelist_cache ≡ none
      → pages_of db.tree i ≡ some page
      → on_disk db'.tree.pager i ≡ some page

checkpoint_log :
    (w : Wal) (rs : List WalRecord) (root head next : ℕ)
    → Logged w rs
    → w.current_lsn + 1 < 2 ^ 64
    → root < 2 ^ 64
    → head < 2 ^ 64
    → next < 2 ^ 64
    → (w₁ : Wal) × (w₂ : Wal) × (append_checkpoint root head next w ≡ ok (w.current_lsn + 1, w₁))
      × (truncate_before (w.current_lsn + 1) w₁ ≡ (finished, w₂))
      × Logged w₂ (checkpoint_record (w.current_lsn + 1) root head next ∷ [])
      × (w₂.temp ≡ none)
unfolding append_checkpoint
checkpoint_log w rs root head next l n_fits root_fits head_fits next_fits =
    let r = checkpoint_record (w.current_lsn + 1) root head next in
    let (bs, encoded, _) = encode_wal_record-Fits r (n_fits, root_fits, head_fits, next_fits) in
    let (run, l₁) = append-Logged w rs r bs l encoded refl in
    let w₁ = appended r bs w in
    let longer = length-append rs (r ∷ []) in
    let (w₂, cut, l₂, no_temp, _) =
      truncate_before_log (w.current_lsn + 1) w₁ (rs ++ r ∷ []) l₁ (omega (arith, l.current))
        (omega (arith, l.current, l₁.current, longer)) in
    let last =
      kept_from-last (w.current_lsn + 1) l.first rs r l.sequential (omega (arith, l.current))
        refl in
    (w₁, w₂, run, cut, subst (Logged w₂) last l₂, no_temp)

get_meta_some : (p : Pager) (m : MetaPage) → p.meta ≡ some m → get_meta p ≡ ok m
unfolding get_meta
get_meta_some p m h = rw h

checkpoint_run :
    (db : Db) (t : BPlusTree) (m : MetaPage) (w₁ w₂ : Wal) (p : Pager) (lsn₁ : ℕ)
    → flush_pages db.tree ≡ ok t
    → get_meta t.pager ≡ ok m
    → append_checkpoint m.root_page_id m.freelist_head_page_id m.next_page_id db.wal ≡ ok (lsn₁, w₁)
    → flush_checkpoint_lsn (db.wal.current_lsn + 1) t.pager ≡ ok p
    → truncate_before (db.wal.current_lsn + 1) w₁ ≡ (finished, w₂)
    → checkpoint db ≡ ok (record db { tree = record t { pager = p }; wal = w₂ })
unfolding checkpoint returned
checkpoint_run db t m w₁ w₂ p lsn₁ flushed got appended stamped cut =
    rw (flushed, got, appended, stamped, cut)

-- For a database with an open log of consecutive records, whose next LSN is below 2^64, with an
-- open pager whose file has its first page and whose page size is the meta page's, and with a pool
-- that has no page ID twice, whose clean pages are those on disk, and that has fewer dirty pages
-- than its capacity or does not evict; where the dirty pages, the cached freelist pages and the
-- meta page can be encoded: `checkpoint` ends without an exception; afterwards the log holds the
-- checkpoint's record alone, the meta page in memory has its LSN, no page is dirty, and the data
-- file holds every page but page 0 and the cached freelist pages that the pool or the file showed
-- before.
pub checkpoint-Checkpointed :
    (db : Db) (rs : List WalRecord) (m : MetaPage)
    → CanCheckpoint db rs m
    → (db' : Db) × (checkpoint db ≡ ok db') × Checkpointed db m (db.wal.current_lsn + 1) db'
checkpoint-Checkpointed db rs m h =
    let n = db.wal.current_lsn + 1 in
    let (t, flushed, f) =
      flush_pages-PagesFlushed db.tree h.coherent h.encodable h.ready h.freelist_fits in
    let has_meta : t.pager.meta ≡ some m = f.same_meta ∙ h.has_meta in
    let (w₁, w₂, appended, cut, log, no_temp) =
      checkpoint_log db.wal rs m.root_page_id m.freelist_head_page_id m.next_page_id h.logged
        h.meta_fits.lsn_fits h.meta_fits.root_fits h.meta_fits.head_fits h.meta_fits.next_fits in
    let (p, stamped, g) =
      flush_checkpoint_lsn-MetaFlushed n m t.pager f.is_ready has_meta
        (h.same_size ∙ sym f.same_size) h.meta_fits in
    (
      record db { tree = record t { pager = p }; wal = w₂ },
      checkpoint_run db t m w₁ w₂ p n flushed (get_meta_some t.pager m has_meta) appended stamped
          cut,
      record {
        log_cut = log;
        no_temp = no_temp;
        meta_now = g.meta_now;
        none_dirty = f.none_dirty;
        durable = λ i page apart absent shown. g.kept i page apart (f.stored i page absent shown);
      },
    )
