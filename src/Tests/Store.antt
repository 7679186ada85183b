-- ===== src/Tests/Store.antt =====
-- The meta page and src/bptreedb/pager.py on a small data file.
use bptreedb.Prelude.{
  none, ◌≡◌, refl, inr, true, false, some, [], ◌∷◌, ◌++◌, arith, length, replicate,
}
use bptreedb.Exceptions.{ok, err, db_buffer_pool_overflow_error}
use bptreedb.Struct.{Bytes}
use bptreedb.Entities.{MetaPage, TreePage, leaf}
use bptreedb.Cache.{
  CachedPage, BufferPool, init, without_oldest_clean, evict_oldest_clean_page_if_full, hit,
  get_page, insert,
}
use bptreedb.Cache.Eviction.{HoldsDirty, get_page-HoldsDirty, insert-HoldsDirty, full_overflow}
use bptreedb.Codec.Meta.{encode_meta_page, decode_meta_page, decode-encode_meta}
use bptreedb.Sequence.{get, put, add}
use bptreedb.Pager.{
  Pager, read_page, write_page, get_meta, update_meta, bump_allocate_one_page, allocate_page,
  free_into_new_head, free_page,
}
use bptreedb.Pager.Pages.{read_page-write_page}
use bptreedb.Pager.Freelist.{allocate_page-free_page}

abbrev small_meta : MetaPage
small_meta = record {
  page_size_bytes = 64;
  root_page_id = 1;
  next_page_id = 2;
  freelist_head_page_id = 0;
  last_checkpoint_lsn = 5;
}

decode-encode_meta_example :
    (bs : Bytes) × (encode_meta_page small_meta ≡ ok bs)
    × (length bs ≡ 64)
    × (decode_meta_page bs ≡ ok small_meta)
decode-encode_meta_example = decode-encode_meta small_meta (record {
  room = omega arith;
  size_fits = omega arith;
  root_fits = omega arith;
  next_fits = omega arith;
  head_fits = omega arith;
  lsn_fits = omega arith;
})

-- A pager with pages of four bytes, three of which are in the file.
abbrev three_pages : Pager
three_pages = record {
  existed = true;
  file = 0 ∷ 1 ∷ 2 ∷ 3 ∷ 4 ∷ 5 ∷ 6 ∷ 7 ∷ 8 ∷ 9 ∷ 10 ∷ 11 ∷ [];
  is_open = true;
  page_size_bytes = 4;
  meta = some small_meta;
  is_meta_dirty = false;
  freelist_cache = [];
  dirty_freelist_page_ids = [];
  stats = record {
    page_reads = 0;
    page_writes = 0;
    pages_allocated = 0;
    pages_freed = 0;
    pages_reused_from_freelist = 0;
    meta_flushes = 0;
    fsyncs = 0;
  };
}

read_page-write_page_example :
    (p' : Pager) × (q : Pager) × (write_page 1 (90 ∷ 91 ∷ 92 ∷ 93 ∷ []) three_pages ≡ ok p')
    × (read_page 2 p' ≡ ok ((8 ∷ 9 ∷ 10 ∷ 11 ∷ []), q))
read_page-write_page_example =
    read_page-write_page 1 2 (90 ∷ 91 ∷ 92 ∷ 93 ∷ []) three_pages refl refl (inr (omega arith))

-- The pager after the page 1 was freed into a new head page.
abbrev freed_one : Pager
freed_one = record three_pages {
  file = three_pages.file ++ replicate 4 0;
  meta = some (record small_meta { next_page_id = 3; freelist_head_page_id = 2 });
  is_meta_dirty = true;
  freelist_cache =
      (2, record { last_modified_lsn = 0; next_freelist_page_id = 0; freed_page_ids = 1 ∷ [] })
      ∷ [];
  dirty_freelist_page_ids = 2 ∷ [];
  stats = record three_pages.stats { pages_allocated = 1; pages_freed = 1 };
}

freed : free_page 1 three_pages ≡ ok freed_one
unfolding free_page get_meta free_into_new_head bump_allocate_one_page update_meta put add
freed = refl

allocate_page-free_page_example : (q : Pager) × (allocate_page freed_one ≡ ok (1, q))
allocate_page-free_page_example =
    allocate_page-free_page 1 three_pages freed_one small_meta refl (λ e. omega (arith, e)) freed

abbrev empty_leaf : TreePage
empty_leaf = leaf (record { last_modified_lsn = 1; right_sibling_page_id = 0; slots = [] })

abbrev dirty_page : CachedPage
dirty_page = record { page = empty_leaf; is_dirty = true }

-- A full pool with a dirty page and a clean one.
abbrev half_dirty : BufferPool
half_dirty = record (init 2) {
  cached = (1, dirty_page) ∷ (2, record { page = empty_leaf; is_dirty = false }) ∷ [];
}

one_held : HoldsDirty 1 dirty_page half_dirty.cached
unfolding get
one_held = (refl, refl)

-- The use of page 2, and an insertion that evicts it.
got_two :
    get_page 2 half_dirty three_pages
    ≡ ok
        (empty_leaf, hit 2 (record { page = empty_leaf; is_dirty = false }) half_dirty, three_pages)
unfolding get_page get
got_two = refl

get_page-HoldsDirty_example :
    HoldsDirty 1 dirty_page
      (hit 2 (record { page = empty_leaf; is_dirty = false }) half_dirty).cached
get_page-HoldsDirty_example =
    get_page-HoldsDirty 1 2 dirty_page half_dirty
      (hit 2 (record { page = empty_leaf; is_dirty = false }) half_dirty) three_pages three_pages
      empty_leaf one_held got_two

abbrev inserted : BufferPool
inserted = record half_dirty {
  cached =
      (1, dirty_page)
      ∷ (
        3,
        record {
          page = leaf (record { last_modified_lsn = 8; right_sibling_page_id = 0; slots = [] });
          is_dirty = true;
        },
      )
      ∷ [];
  stats = record half_dirty.stats { evictions = 1 };
}

inserted_three : insert 3 empty_leaf 8 half_dirty ≡ ok inserted
unfolding insert get put evict_oldest_clean_page_if_full without_oldest_clean
inserted_three = refl

insert-HoldsDirty_example :
    HoldsDirty 1 dirty_page inserted.cached
    × HoldsDirty 3
        (record {
          page = leaf (record { last_modified_lsn = 8; right_sibling_page_id = 0; slots = [] });
          is_dirty = true;
        })
        inserted.cached
insert-HoldsDirty_example =
    insert-HoldsDirty 1 3 dirty_page empty_leaf 8 half_dirty inserted one_held inserted_three

four_missing : get 4 inserted.cached ≡ none
unfolding get
four_missing = refl

full_overflow_example :
    (get_page 4 inserted three_pages ≡ err db_buffer_pool_overflow_error)
    × (insert 4 empty_leaf 9 inserted ≡ err db_buffer_pool_overflow_error)
full_overflow_example =
    full_overflow 4 empty_leaf 9 inserted three_pages refl (omega arith) (refl, (refl, tt))
      four_missing
