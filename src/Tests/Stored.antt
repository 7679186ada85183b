-- ===== src/Tests/Stored.antt =====
-- Reads of src/bptreedb/tree.py through the buffer pool of src/bptreedb/cache.py, on small trees.
use bptreedb.Prelude.{
  ℕ, ◌+◌, ◌<◌, ◌≡◌, ◌∙◌, sym, ap, refl, inr, true, false, some, List, [], ◌∷◌, ◌++◌, arith, length,
  replicate, All, take_of_length-le, Bool-cases, inl, ◌==◌, eq_of_some,
}
use bptreedb.Exceptions.{ok}
use bptreedb.Struct.{Bytes}
use bptreedb.Keys.{lt_bytes}
use bptreedb.Sequence.{get}
use bptreedb.Entities.{MetaPage, LeafPage, InternalPage, leaf, internal, tree}
use bptreedb.Codec.Sizes.{LeafSlot-Slot, InternalSlot-Slot, calculate_page_size}
use bptreedb.Codec.Page.{encode_page, decode_page}
use bptreedb.Codec.Page.RoundTrip.{FitsLeaf, FitsInternal, decode-encode_page}
use bptreedb.Pager
use bptreedb.Pager.{Pager, page_bytes}
use bptreedb.Cache.{CachedPage, BufferPool, init, flush_all, get_dirty_page_ids}
use bptreedb.Cache.Places.{IsUnique}
use bptreedb.Cache.Disk.{on_disk, shown, IsClean, on_disk-written}
use bptreedb.Cache.Clean.{IsEncodable, Flushed}
use bptreedb.Cache.Flush.{flush_all-Flushed}
use bptreedb.Tree.Store.Pool.{BPlusTree, pool_store, fetch}
use bptreedb.Tree.Store.Pool as Pool
use bptreedb.Tree.Slots.Lookup.{lookup}
use bptreedb.Tree.Descent.{search}
use bptreedb.Tree.Scan.{unstarted, collect, or_empty}
use bptreedb.Tree.Content.{Leaf, items, Stored}
use bptreedb.Tree.Content.Cached.{IsCoherent, pages_of, pool_reads, fetch-IsCoherent}
use bptreedb.Tree.Content.Search.{search-Stored}
use bptreedb.Tree.Content.Range.{in_range}
use bptreedb.Tree.Content.Collect.{scan-Stored}

abbrev pub one_leaf : LeafPage
one_leaf = record {
  last_modified_lsn = 4;
  right_sibling_page_id = 2;
  slots = record { key = 1 ∷ []; value = 10 ∷ [] } ∷ record { key = 3 ∷ []; value = 30 ∷ [] } ∷ [];
}

abbrev pub other_leaf : LeafPage
other_leaf = record {
  last_modified_lsn = 5;
  right_sibling_page_id = 0;
  slots = record { key = 5 ∷ []; value = 50 ∷ [] } ∷ [];
}

abbrev pub root_page : InternalPage
root_page = record {
  last_modified_lsn = 5;
  leftmost_child_page_id = 1;
  slots = record { key = 5 ∷ []; child_page_id = 2 } ∷ [];
}

abbrev pub tree_meta : MetaPage
tree_meta = record {
  page_size_bytes = 80;
  root_page_id = 3;
  next_page_id = 4;
  freelist_head_page_id = 0;
  last_checkpoint_lsn = 3;
}

-- The bytes of the first leaf, encoded.
pub one_leaf_fits : FitsLeaf 80 one_leaf
unfolding calculate_page_size
one_leaf_fits = record {
  small = omega arith;
  lsn_fits = omega arith;
  sibling_fits = omega arith;
  slots_fit = omega arith;
}

decode-encode_page_example :
    (bytes : Bytes) × (encode_page (tree (leaf one_leaf)) 80 ≡ ok bytes)
    × (length bytes ≡ 80)
    × (decode_page bytes ≡ ok (tree (leaf one_leaf)))
decode-encode_page_example = decode-encode_page (tree (leaf one_leaf)) 80 one_leaf_fits

-- A data file with a first page of zeros and the first leaf behind it.
abbrev pub leaf_bytes : Bytes
leaf_bytes = (decode-encode_page (tree (leaf one_leaf)) 80 one_leaf_fits).0

abbrev pub leaf_decoded : decode_page leaf_bytes ≡ ok (tree (leaf one_leaf))
leaf_decoded = (decode-encode_page (tree (leaf one_leaf)) 80 one_leaf_fits).3

abbrev pub leaf_whole : length leaf_bytes ≡ 80
leaf_whole = (decode-encode_page (tree (leaf one_leaf)) 80 one_leaf_fits).2

abbrev pub small_pager : Pager
small_pager = record {
  existed = true;
  file = replicate 80 0 ++ leaf_bytes;
  is_open = true;
  page_size_bytes = 80;
  meta = some tree_meta;
  is_meta_dirty = false;
  freelist_cache = [];
  dirty_freelist_page_ids = [];
  stats = record {
    page_reads = 0;
    page_writes = 0;
    pages_allocated = 0;
    pages_freed = 0;
    pages_reused_from_freelist = 0;
    meta_flushes = 0;
    fsyncs = 0;
  };
}

-- The root and the second leaf are in the pool, and dirty.
abbrev pub small_pool : BufferPool
small_pool = record (init 3) {
  cached =
      (3, record { page = internal root_page; is_dirty = true })
      ∷ (2, record { page = leaf other_leaf; is_dirty = true })
      ∷ [];
}

abbrev pub small_tree : BPlusTree
small_tree = Pool.init small_pager small_pool

only_dirty-IsClean :
    (p : Pager) (cached : List (ℕ × CachedPage))
    → All (λ e. e.1.is_dirty ≡ true) cached
    → IsClean p cached
unfolding get
only_dirty-IsClean p [] h i c at clean = cc
only_dirty-IsClean p ((j, d) ∷ cached) h i c at clean = elim (Bool-cases (j == i)) [
  | inl y ↦ absurd (
      let same : d ≡ c = eq_of_some (rw y at at) in
      let bad : false ≡ true = sym clean ∙ ap (λ (x : CachedPage). x.is_dirty) (sym same) ∙ h.0 in
      cc)
  | inr n ↦ only_dirty-IsClean p cached h.1 i c (rw n at at) clean
]

small-IsUnique : IsUnique small_pool.cached
unfolding get
small-IsUnique = (refl, (refl, tt))

pub small-IsCoherent : IsCoherent small_tree
unfolding get_dirty_page_ids
small-IsCoherent = record {
  is_open = refl;
  is_unique = small-IsUnique;
  is_clean = only_dirty-IsClean small_pager small_pool.cached (refl, (refl, tt));
  has_room = λ on. omega arith;
}

leaf_on_disk : on_disk small_pager 1 ≡ some (leaf one_leaf)
leaf_on_disk =
    on_disk-written small_pager 1 (leaf one_leaf) leaf_bytes
      (take_of_length-le 80 leaf_bytes (omega (arith, leaf_whole))) leaf_whole leaf_decoded

leaf_shown : pages_of small_tree 1 ≡ some (leaf one_leaf)
unfolding pages_of get shown
leaf_shown = leaf_on_disk

fetch-IsCoherent_example :
    (t' : BPlusTree) × (fetch 1 small_tree ≡ ok (leaf one_leaf, t'))
    × IsCoherent t'
    × (pages_of t' ≡ pages_of small_tree)
    × (Pager.get_meta t'.pager ≡ Pager.get_meta small_tree.pager)
fetch-IsCoherent_example = fetch-IsCoherent 1 (leaf one_leaf) small_tree small-IsCoherent leaf_shown

abbrev pub small_leaves : List Leaf
small_leaves = (1, one_leaf) ∷ (2, other_leaf) ∷ []

pub small-Stored : Stored pool_reads small_tree small_leaves
unfolding pages_of get shown items lt_bytes Pager.get_meta
small-Stored = record {
  meta = tree_meta;
  height = 1;
  is_valid = small-IsCoherent;
  has_meta = refl;
  holds = (
    root_page,
    refl,
    (tt, tt),
    (
      ((1, one_leaf) ∷ []),
      ((2, other_leaf) ∷ []),
      refl,
      (one_leaf, leaf_on_disk, refl),
      (refl, (refl, tt)),
      (refl, tt),
      (other_leaf, refl, refl),
    ),
  );
  is_sorted = ((refl, (refl, tt)), ((refl, tt), (tt, tt)));
  height_fits = omega arith;
  leaves_fit = omega arith;
}

search-Stored_example :
    (t' : BPlusTree) × (search (3 ∷ []) small_tree ≡ ok (lookup (items small_leaves) (3 ∷ []), t'))
    × Stored pool_reads t' small_leaves
search-Stored_example = search-Stored pool_reads (3 ∷ []) small_tree small_leaves small-Stored

few_items : length (items small_leaves) < 4
unfolding items
few_items = omega arith

scan-Stored_example :
    (t' : BPlusTree) × (collect (some (5 ∷ [])) (ok tt) 4 (unstarted (some (2 ∷ []))) small_tree
      ≡ ok (in_range (or_empty (some (2 ∷ []))) (some (5 ∷ [])) (items small_leaves), t'))
    × Stored pool_reads t' small_leaves
scan-Stored_example =
    scan-Stored pool_reads (some (2 ∷ [])) (some (5 ∷ [])) small_tree small_leaves 4 small-Stored
      (omega arith, refl, (omega arith, refl, tt)) few_items

other_leaf_fits : FitsLeaf 80 other_leaf
unfolding calculate_page_size
other_leaf_fits = record {
  small = omega arith;
  lsn_fits = omega arith;
  sibling_fits = omega arith;
  slots_fit = omega arith;
}

root_page_fits : FitsInternal 80 root_page
unfolding calculate_page_size
root_page_fits = record {
  small = omega arith;
  lsn_fits = omega arith;
  child_fits = omega arith;
  children_fit = (omega arith, tt);
  slots_fit = omega arith;
}

pub small-IsEncodable : IsEncodable 80 small_pool.cached
small-IsEncodable = ((λ e. root_page_fits), ((λ e. other_leaf_fits), tt))

flush_all-Flushed_example :
    (pool' : BufferPool) × (count : ℕ) × (p' : Pager) × (flush_all small_pool small_pager
      ≡ ok (pool', p'))
    × Flushed small_pool.cached small_pager pool'.cached count p'
    × (pool'.stats.dirty_pages_flushed ≡ 0 + count)
flush_all-Flushed_example =
    flush_all-Flushed small_pool small_pager small-IsUnique
      (only_dirty-IsClean small_pager small_pool.cached (refl, (refl, tt))) small-IsEncodable
      (record { is_open = refl; has_first = omega (arith, leaf_whole) })
