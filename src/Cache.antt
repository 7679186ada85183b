-- ===== src/Cache.antt =====
-- src/bptreedb/cache.py: the buffer pool. The pager that it reads and writes through is passed along.
-- A page that a caller changes is changed here by its operation; `get_page` only returns it.
pub mod Eviction
pub mod Places
pub mod Room
pub mod Disk
pub mod Clean
pub mod Flush
pub mod Freelist
use bptreedb.Prelude.{
  ℕ, suc, ◌+◌, Bool, true, false, not, Option, none, some, List, [], ◌∷◌, ◌++◌, ltb, leb, ◌||◌,
  if◌then◌else◌, length,
}
use bptreedb.Exceptions.{
  Result, ok, err, assertion_error, key_error, db_buffer_pool_overflow_error, ◌>>=◌, ◌>>◌, guard,
}
use bptreedb.Sequence.{get, pop, put}
use bptreedb.Entities.{TreePage, leaf, internal, Page, tree, freelist}
use bptreedb.Codec.Page.{encode_page, decode_page}
use bptreedb.Pager.{Pager, read_page, write_page}

pub record CachedPage : Type 0 where
  pub page : TreePage
  pub is_dirty : Bool

pub record BufferPoolStats : Type 0 where
  pub cache_hits : ℕ
  pub cache_misses : ℕ
  pub evictions : ℕ
  pub flushes : ℕ
  pub dirty_pages_flushed : ℕ

-- The cached pages stand from the one used longest ago to the one used last.
pub record BufferPool : Type 0 where
  pub capacity_pages : ℕ
  pub cached : List (ℕ × CachedPage)
  pub eviction_enabled : Bool
  pub stats : BufferPoolStats

-- `BufferPool(pager, capacity_pages)`
abbrev pub init : ℕ → BufferPool
init capacity_pages = record {
  capacity_pages = capacity_pages;
  cached = [];
  eviction_enabled = true;
  stats = record {
    cache_hits = 0;
    cache_misses = 0;
    evictions = 0;
    flushes = 0;
    dirty_pages_flushed = 0;
  };
}

unfoldable pub get_dirty_page_ids : List (ℕ × CachedPage) → List ℕ
get_dirty_page_ids [] = []
get_dirty_page_ids ((page_id, c) ∷ items) =
    let rest = get_dirty_page_ids items in if c.is_dirty then page_id ∷ rest else rest

abbrev pub dirty_count : BufferPool → ℕ
dirty_count pool = length (get_dirty_page_ids pool.cached)

-- The items without the first clean page; `none` if every page is dirty.
unfoldable pub without_oldest_clean : List (ℕ × CachedPage) → Option (List (ℕ × CachedPage))
without_oldest_clean [] = none
without_oldest_clean ((page_id, c) ∷ items) =
    let rest = without_oldest_clean items in
    if c.is_dirty
    then elim rest [ none ↦ none | some kept ↦ some ((page_id, c) ∷ kept) ]
    else some items

unfoldable pub evict_oldest_clean_page_if_full : BufferPool → Result BufferPool
evict_oldest_clean_page_if_full pool =
    if not pool.eviction_enabled || ltb (length pool.cached) pool.capacity_pages
    then ok pool
    else elim (without_oldest_clean pool.cached) [
      | none ↦ err db_buffer_pool_overflow_error
      | some kept ↦ ok (record pool {
        cached = kept;
        stats = record pool.stats { evictions = pool.stats.evictions + 1 };
      })
    ]

-- `move_to_end(page_id)` for a page that is there.
abbrev pub move_to_end : ℕ → CachedPage → List (ℕ × CachedPage) → List (ℕ × CachedPage)
move_to_end page_id c items = pop page_id items ++ (page_id, c) ∷ []

-- `assert isinstance(page, (LeafPage, InternalPage))`
unfoldable pub as_tree : Page → Result TreePage
as_tree (tree page) = ok page
as_tree (freelist page) = err assertion_error

-- The two parts of `get`: a hit and a miss.
abbrev pub hit : ℕ → CachedPage → BufferPool → BufferPool
hit page_id c pool = record pool {
  cached = move_to_end page_id c pool.cached;
  stats = record pool.stats { cache_hits = pool.stats.cache_hits + 1 };
}

unfoldable pub miss : ℕ → BufferPool → Pager → Result (TreePage × BufferPool × Pager)
miss page_id pool pager = do
  pool' ← evict_oldest_clean_page_if_full pool
  (bytes, pager') ← read_page page_id pager
  decoded ← decode_page bytes
  page ← as_tree decoded
  ok (
    page,
    record pool' {
      cached = put page_id (record { page = page; is_dirty = false }) pool'.cached;
      stats = record pool'.stats { cache_misses = pool'.stats.cache_misses + 1 };
    },
    pager',
  )

unfoldable pub get_page : ℕ → BufferPool → Pager → Result (TreePage × BufferPool × Pager)
get_page page_id pool pager = elim (get page_id pool.cached) [
  | some c ↦ ok (c.page, hit page_id c pool, pager)
  | none ↦ miss page_id pool pager
]

abbrev pub stamp : (ℕ → ℕ) → TreePage → TreePage
stamp change (leaf page) = leaf (record page { last_modified_lsn = change page.last_modified_lsn })
stamp change (internal page) =
    internal (record page { last_modified_lsn = change page.last_modified_lsn })

unfoldable pub insert : ℕ → TreePage → ℕ → BufferPool → Result BufferPool
insert page_id page lsn pool = elim (get page_id pool.cached) [
  | some _ ↦ err assertion_error
  | none ↦ do
    pool' ← evict_oldest_clean_page_if_full pool
    ok (record pool' {
      cached = put page_id (record { page = stamp (λ _. lsn) page; is_dirty = true }) pool'.cached;
    })
]

unfoldable pub mark_dirty : ℕ → ℕ → BufferPool → Result BufferPool
mark_dirty page_id lsn pool = elim (get page_id pool.cached) [
  | none ↦ err key_error
  | some c ↦ ok (record pool {
    cached =
        put page_id
          (record {
            page = stamp (λ old. if leb lsn old then old else lsn) c.page;
            is_dirty = true;
          })
          pool.cached;
  })
]

unfoldable pub delete : ℕ → BufferPool → BufferPool
delete page_id pool = record pool { cached = pop page_id pool.cached }

-- The loop of `flush_all`, with the number of pages that it writes.
unfoldable pub flush_items :
    List (ℕ × CachedPage) → Pager → Result (List (ℕ × CachedPage) × ℕ × Pager)
flush_items [] pager = ok ([], 0, pager)
flush_items ((page_id, c) ∷ items) pager =
    let rest = λ (p : Pager). flush_items items p in
    if c.is_dirty
    then (do
      bytes ← encode_page (tree c.page) pager.page_size_bytes
      pager' ← write_page page_id bytes pager
      (clean, count, pager'') ← rest pager'
      ok ((page_id, record c { is_dirty = false }) ∷ clean, suc count, pager''))
    else (do (clean, count, pager') ← rest pager; ok ((page_id, c) ∷ clean, count, pager'))

unfoldable pub flush_all : BufferPool → Pager → Result (BufferPool × Pager)
unfolding flush_items
flush_all pool pager = do
  (clean, count, pager') ← flush_items pool.cached pager
  ok (
    record pool {
      cached = clean;
      stats = record pool.stats {
        flushes = pool.stats.flushes + 1;
        dirty_pages_flushed = pool.stats.dirty_pages_flushed + count;
      };
    },
    pager',
  )
