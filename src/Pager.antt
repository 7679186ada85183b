-- ===== src/Pager.antt =====
-- src/bptreedb/pager.py: the page file and the freelist. The file's bytes are `file`; a page that
-- is not there when the pager is created is `existed = false`.
pub mod Pages
pub mod Freelist
use bptreedb.Prelude.{
  ℕ, suc, ◌+◌, ◌-◌, ◌*◌, Bool, true, false, not, ◌&&◌, ◌||◌, Option, none, some, List, [], ◌∷◌,
  ◌++◌, ltb, leb, ◌==◌, if◌then◌else◌, length, take, drop, replicate,
}
use bptreedb.Exceptions.{
  Result, ok, err, assertion_error, value_error, db_corrupted_error, ◌>>=◌, ◌>>◌, guard,
}
use bptreedb.Sequence.{pop_last, get, pop, put, discard, add, sorted}
use bptreedb.Struct.{Bytes}
use bptreedb.Entities.{MetaPage, LeafPage, FreelistPage, Page, tree, leaf, freelist}
use bptreedb.Codec.{min_page_size}
use bptreedb.Codec.Meta.{encode_meta_page, decode_meta_page}
use bptreedb.Codec.Page.{encode_page, decode_page}
use bptreedb.Codec.Sizes.{get_max_freed_ids_per_freelist_page}

abbrev pub meta_page_id : ℕ
meta_page_id = 0

abbrev pub default_root_page_id : ℕ
default_root_page_id = 1

pub record PagerStats : Type 0 where
  pub page_reads : ℕ
  pub page_writes : ℕ
  pub pages_allocated : ℕ
  pub pages_freed : ℕ
  pub pages_reused_from_freelist : ℕ
  pub meta_flushes : ℕ
  pub fsyncs : ℕ

pub record Pager : Type 0 where
  pub existed : Bool
  pub file : Bytes
  pub is_open : Bool
  pub page_size_bytes : ℕ
  pub meta : Option MetaPage
  pub is_meta_dirty : Bool
  pub freelist_cache : List (ℕ × FreelistPage)
  pub dirty_freelist_page_ids : List ℕ
  pub stats : PagerStats

-- `Pager(path, page_size_bytes=...)`
unfoldable pub init : Bool → Bytes → ℕ → Result Pager
init existed file page_size_bytes =
    if ltb page_size_bytes min_page_size
    then err value_error
    else ok (record {
      existed = existed;
      file = file;
      is_open = false;
      page_size_bytes = page_size_bytes;
      meta = none;
      is_meta_dirty = false;
      freelist_cache = [];
      dirty_freelist_page_ids = [];
      stats = record {
        page_reads = 0;
        page_writes = 0;
        pages_allocated = 0;
        pages_freed = 0;
        pages_reused_from_freelist = 0;
        meta_flushes = 0;
        fsyncs = 0;
      };
    })

-- `assert self._meta_page is not None`
unfoldable pub get_meta : Pager → Result MetaPage
get_meta p = elim p.meta [ none ↦ err assertion_error | some m ↦ ok m ]

abbrev pub page_bytes : ℕ → Pager → Bytes
page_bytes page_id p = take p.page_size_bytes (drop (page_id * p.page_size_bytes) p.file)

unfoldable pub read_page : ℕ → Pager → Result (Bytes × Pager)
read_page page_id p = do
  guard p.is_open assertion_error
  let bytes = page_bytes page_id p
  guard (page_id == meta_page_id || length bytes == p.page_size_bytes) db_corrupted_error
  ok (bytes, record p { stats = record p.stats { page_reads = p.stats.page_reads + 1 } })

-- A write behind the end of the file leaves zeros in the gap.
abbrev pub write_at : ℕ → Bytes → Bytes → Bytes
write_at position bytes file =
    take position (file ++ replicate (position - length file) 0)
    ++ (bytes ++ drop (position + length bytes) file)

unfoldable pub write_page : ℕ → Bytes → Pager → Result Pager
write_page page_id bytes p = do
  guard p.is_open assertion_error
  ok (record p {
    file = write_at (page_id * p.page_size_bytes) bytes p.file;
    stats = record p.stats { page_writes = p.stats.page_writes + 1 };
  })

unfoldable pub fsync : Pager → Result Pager
fsync p = do
  guard p.is_open assertion_error
  ok (record p { stats = record p.stats { fsyncs = p.stats.fsyncs + 1 } })

-- `update_meta(**fields)`: the fields are set by `change`.
unfoldable pub update_meta : (MetaPage → MetaPage) → Pager → Result Pager
update_meta change p = do
  m ← get_meta p
  ok (record p { meta = some (change m); is_meta_dirty = true })

unfoldable pub flush_meta : Pager → Result Pager
flush_meta p = do
  m ← get_meta p
  bytes ← encode_meta_page m
  p' ← write_page meta_page_id bytes p
  ok (record p' {
    is_meta_dirty = false;
    stats = record p'.stats { meta_flushes = p'.stats.meta_flushes + 1 };
  })

-- `assert isinstance(page, FreelistPage)`
unfoldable pub as_freelist : Page → Result FreelistPage
as_freelist (freelist page) = ok page
as_freelist (tree page) = err assertion_error

unfoldable pub load_freelist_page : ℕ → Pager → Result (FreelistPage × Pager)
load_freelist_page page_id p = do
  (bytes, p') ← read_page page_id p
  decoded ← decode_page bytes
  page ← as_freelist decoded
  ok (page, record p' { freelist_cache = put page_id page p'.freelist_cache })

unfoldable pub get_freelist_page : ℕ → Pager → Result (FreelistPage × Pager)
get_freelist_page page_id p = elim (get page_id p.freelist_cache) [
  | some page ↦ ok (page, p)
  | none ↦ load_freelist_page page_id p
]

abbrev pub mark_freelist_page_dirty : ℕ → FreelistPage → Pager → Pager
mark_freelist_page_dirty page_id page p = record p {
  freelist_cache = put page_id page p.freelist_cache;
  dirty_freelist_page_ids = add page_id p.dirty_freelist_page_ids;
}

unfoldable pub flush_freelist_ids : List ℕ → Pager → Result Pager
flush_freelist_ids [] p = ok p
flush_freelist_ids (page_id ∷ ids) p =
    let skip = flush_freelist_ids ids p in
    let rest = λ (p' : Pager). flush_freelist_ids ids p' in
    elim (get page_id p.freelist_cache) [
      | none ↦ skip
      | some page ↦ do
        bytes ← encode_page (freelist page) p.page_size_bytes
        p' ← write_page page_id bytes p
        rest p'
    ]

unfoldable pub flush_dirty_freelist_pages : Pager → Result Pager
unfolding flush_freelist_ids sorted
flush_dirty_freelist_pages p = do
  p' ← flush_freelist_ids (sorted p.dirty_freelist_page_ids) p
  ok (record p' { dirty_freelist_page_ids = [] })

unfoldable pub bump_allocate_one_page : Pager → Result (ℕ × Pager)
bump_allocate_one_page p = do
  m ← get_meta p
  guard p.is_open assertion_error
  let extended = record p { file = p.file ++ replicate p.page_size_bytes 0 }
  p' ← update_meta (λ m'. record m' { next_page_id = m.next_page_id + 1 }) extended
  ok (
    m.next_page_id,
    record p' { stats = record p'.stats { pages_allocated = p'.stats.pages_allocated + 1 } },
  )

-- What `allocate_page` does to a page that it takes from the freelist.
abbrev pub forget_reused : ℕ → Pager → Pager
forget_reused page_id p = record p {
  freelist_cache = pop page_id p.freelist_cache;
  dirty_freelist_page_ids = discard page_id p.dirty_freelist_page_ids;
  stats = record p.stats { pages_reused_from_freelist = p.stats.pages_reused_from_freelist + 1 };
}

-- The head page with an entry, and the head page without one.
unfoldable pub reuse_entry : ℕ → FreelistPage → List ℕ × ℕ → Pager → Result (ℕ × Pager)
reuse_entry head page (rest, page_id) p = ok (
  page_id,
  forget_reused page_id (mark_freelist_page_dirty head (record page { freed_page_ids = rest }) p),
)

unfoldable pub reuse_head : ℕ → FreelistPage → Pager → Result (ℕ × Pager)
reuse_head head page p = do
  p' ← update_meta (λ m. record m { freelist_head_page_id = page.next_freelist_page_id }) p
  ok (head, forget_reused head p')

unfoldable pub allocate_from : ℕ → FreelistPage → Pager → Result (List ℕ × ℕ) → Result (ℕ × Pager)
unfolding reuse_entry reuse_head
allocate_from head page p (ok popped) = reuse_entry head page popped p
allocate_from head page p (err e) = reuse_head head page p

unfoldable pub allocate_page : Pager → Result (ℕ × Pager)
unfolding allocate_from
allocate_page p = do
  m ← get_meta p
  if m.freelist_head_page_id == 0 then bump_allocate_one_page p else (do
    (page, p') ← get_freelist_page m.freelist_head_page_id p
    allocate_from m.freelist_head_page_id page p' (pop_last page.freed_page_ids))

-- A new head page that holds the freed page.
unfoldable pub free_into_new_head : ℕ → Pager → Result Pager
free_into_new_head page_id p = do
  (new_head, p') ← bump_allocate_one_page p
  m ← get_meta p'
  let page : FreelistPage = record {
    last_modified_lsn = 0;
    next_freelist_page_id = m.freelist_head_page_id;
    freed_page_ids = page_id ∷ [];
  }
  update_meta (λ m'. record m' { freelist_head_page_id = new_head })
      (mark_freelist_page_dirty new_head page p')

unfoldable pub free_page : ℕ → Pager → Result Pager
unfolding free_into_new_head
free_page page_id p = do
  m ← get_meta p
  let counted = record p { stats = record p.stats { pages_freed = p.stats.pages_freed + 1 } }
  if m.freelist_head_page_id == 0 then free_into_new_head page_id counted else (do
    (page, p') ← get_freelist_page m.freelist_head_page_id counted
    if ltb (length page.freed_page_ids) (get_max_freed_ids_per_freelist_page p'.page_size_bytes)
        then ok (
            mark_freelist_page_dirty m.freelist_head_page_id
              (record page { freed_page_ids = page.freed_page_ids ++ page_id ∷ [] }) p')
        else free_into_new_head page_id p')

unfoldable pub bootstrap_initial_db : Pager → Result Pager
bootstrap_initial_db p = do
  let fresh = record p {
    meta = some (record {
      page_size_bytes = p.page_size_bytes;
      root_page_id = default_root_page_id;
      next_page_id = default_root_page_id;
      freelist_head_page_id = 0;
      last_checkpoint_lsn = 0;
    });
  }
  (leaf_page_id, p₁) ← allocate_page fresh
  bytes ←
      encode_page
        (tree (leaf (record { last_modified_lsn = 0; right_sibling_page_id = 0; slots = [] })))
        p₁.page_size_bytes
  p₂ ← write_page leaf_page_id bytes p₁
  p₃ ← flush_meta p₂
  fsync p₃

unfoldable pub open_pager : Pager → Result Pager
unfolding bootstrap_initial_db
open_pager p =
    if p.is_open
    then ok p
    else if not p.existed
    then bootstrap_initial_db (record p { is_open = true; existed = true })
    else (do
      (bytes, p') ← read_page meta_page_id (record p { is_open = true })
      m ← decode_meta_page bytes
      ok (record p' { meta = some m; page_size_bytes = m.page_size_bytes }))

-- The two conditional flushes of `close`; an empty set of dirty pages has nothing to flush.
unfoldable pub flush_meta_if_dirty : Pager → Result Pager
flush_meta_if_dirty p = if p.is_meta_dirty then flush_meta p else ok p

unfoldable pub close : Pager → Result Pager
unfolding flush_meta_if_dirty
close p = if not p.is_open then ok p else (do
  p₁ ← flush_dirty_freelist_pages p
  p₂ ← flush_meta_if_dirty p₁
  p₃ ← fsync p₂
  ok (record p₃ { is_open = false; freelist_cache = []; dirty_freelist_page_ids = [] }))
