-- ===== src/Tests/Trees.antt =====
-- src/bptreedb/tree.py on a stored tree of pages of 128 bytes.
use bptreedb.Prelude.{◌≡◌, refl, ℕ, false, Option, none, some, List, [], ◌∷◌}
use bptreedb.Exceptions.{Result, ok, err, key_error, ◌>>=◌}
use bptreedb.Struct.{Bytes}
use bptreedb.Pager
use bptreedb.Pager.{open_pager, get_meta}
use bptreedb.Cache
use bptreedb.Tree.Store.Pool.{BPlusTree, pool_store, init}
use bptreedb.Tree.Descent.{search}
use bptreedb.Tree.Cascade.Operations.{insert, delete}

-- A tree on a data file that does not exist yet.
fresh : Result BPlusTree
fresh = do
  unopened ← Pager.init false [] 128
  pager ← open_pager unopened
  ok (init pager (Cache.init 8))

insert_all : List ℕ → BPlusTree → Result BPlusTree
insert_all [] t = ok t
insert_all (k ∷ ks) t = do t' ← insert (k ∷ []) (k ∷ 0 ∷ []) 1 t; insert_all ks t'

delete_all : List ℕ → BPlusTree → Result BPlusTree
delete_all [] t = ok t
delete_all (k ∷ ks) t = do (done, t') ← delete (k ∷ []) 2 t; delete_all ks t'

search_all : List ℕ → BPlusTree → Result (List (Option Bytes))
search_all [] t = ok []
search_all (k ∷ ks) t = do (v, t') ← search (k ∷ []) t; vs ← search_all ks t'; ok (v ∷ vs)

program : Unit {0}
unfolding fresh Pager.init open_pager Pager.allocate_page get_meta Pager.bump_allocate_one_page
    Pager.update_meta bptreedb.Codec.Page.encode_page bptreedb.Codec.Page.place_records
    bptreedb.Codec.Page.finish_page bptreedb.Codec.write_struct bptreedb.Struct.pack
    Pager.write_page Pager.flush_meta bptreedb.Codec.Meta.encode_meta_page
    bptreedb.Codec.write_crc32 bptreedb.Crc32.crc32 Pager.fsync insert_all insert
    bptreedb.Tree.Split.raise_if_record_too_large bptreedb.Tree.Descent.find_leaf
    bptreedb.Tree.Store.Pool.fetch Cache.get_page bptreedb.Sequence.get Cache.miss
    Cache.evict_oldest_clean_page_if_full Pager.read_page bptreedb.Codec.Page.decode_page
    bptreedb.Codec.read_struct bptreedb.Struct.unpack_from bptreedb.Codec.Page.decode_by_page_type
    bptreedb.Codec.Page.read_slots Cache.as_tree
    bptreedb.Tree.Cascade.Operations.balance_and_write_tree bptreedb.Tree.Store.Pool.assign
    bptreedb.Sequence.put bptreedb.Tree.Split.is_page_overpopulated
    bptreedb.Codec.Sizes.calculate_page_size bptreedb.Tree.Slots.insert_slots
    bptreedb.Tree.Slots.write_slot bptreedb.Tree.Slots.slot_at bptreedb.Tree.Slots.insort
    bptreedb.Tree.Slots.bisect_right bptreedb.Tree.Bisect.bisect
    bptreedb.Tree.Split.is_page_underpopulated bptreedb.Tree.Store.Pool.mark_dirty Cache.mark_dirty
    bptreedb.Sequence.pop bptreedb.Tree.Slots.bisect_left bptreedb.Keys.lt_bytes
    bptreedb.Keys.eq_bytes bptreedb.Tree.Cascade.Split.split_page
    bptreedb.Tree.Split.choose_split_point bptreedb.Tree.Split.last_of
    bptreedb.Tree.Split.cumulative_sizes bptreedb.Tree.Store.Pool.allocate
    bptreedb.Tree.Split.split_leaf_at bptreedb.Tree.Split.first_balanced
    bptreedb.Tree.Split.candidates bptreedb.Tree.Split.byte_midpoint
    bptreedb.Tree.Split.leaf_halves_are_balanced bptreedb.Tree.Store.Pool.register Cache.insert
    bptreedb.Tree.Store.Pool.set_root bptreedb.Tree.Descent.child_of bptreedb.Tree.Slots.child_at
    bptreedb.Tree.Slots.child_of_place bptreedb.Tree.Store.as_internal delete_all delete
    bptreedb.Tree.Slots.delete_slots bptreedb.Tree.Slots.pop_slot search_all search
    bptreedb.Tree.Slots.search_slots bptreedb.Tree.Slots.value_of Cache.flush_all
    bptreedb.Codec.Page.write_leaf_record bptreedb.Codec.write_length_prefixed_bytes
    bptreedb.Codec.Page.write_internal_record bptreedb.Codec.Page.read_internal_record
    bptreedb.Codec.read_length_prefixed_bytes bptreedb.Codec.Page.read_leaf_record
    bptreedb.Tree.Cascade.Rescue.redistribute_or_merge_page
    bptreedb.Tree.Cascade.Siblings.determine_same_parent_siblings Cache.without_oldest_clean
    bptreedb.Tree.Cascade.Siblings.try_redistribute_slots
    bptreedb.Tree.Rebalance.try_redistribute_leaf bptreedb.Tree.Rebalance.redistribute_loop
    bptreedb.Tree.Rebalance.move_leaf_from_right bptreedb.Tree.Rebalance.move_leaf_slots
    bptreedb.Tree.Cascade.Rescue.write_redistributed
program = tt

run : Result (List (Option Bytes) × BPlusTree)
run = do
  t ← fresh
  t' ← insert_all (5 ∷ 3 ∷ 8 ∷ 1 ∷ 9 ∷ 2 ∷ 7 ∷ 4 ∷ 6 ∷ 10 ∷ 11 ∷ 12 ∷ []) t
  t'' ← delete_all (3 ∷ 4 ∷ 9 ∷ []) t'
  vs ← search_all (1 ∷ 3 ∷ 4 ∷ 5 ∷ 9 ∷ 10 ∷ 13 ∷ []) t''
  ok (vs, t'')

-- A run: twelve insertions, three deletions, and searches for some keys.
searched :
    (do (vs, t) ← run; ok vs)
    ≡ ok (
        some (1 ∷ 0 ∷ []) ∷ none ∷ none ∷ some (5 ∷ 0 ∷ []) ∷ none ∷ some (10 ∷ 0 ∷ []) ∷ none ∷ [])
unfolding program run
searched = refl

-- On a pool of two pages, the third deletion changes a leaf and loads its parent and its sibling
-- before the leaf is marked dirty: the load of the sibling evicts the leaf, and `mark_dirty` raises
-- `KeyError`.
evicting : Result BPlusTree
evicting = do
  t ← fresh
  t' ← insert_all (5 ∷ 3 ∷ 8 ∷ 1 ∷ 9 ∷ 2 ∷ 7 ∷ 4 ∷ 6 ∷ []) t
  (pool, pager) ← Cache.flush_all t'.buffer_pool t'.pager
  (_, t₁) ← delete (1 ∷ []) 3 (record t' { pager = pager; buffer_pool = Cache.init 2 })
  (pool₁, pager₁) ← Cache.flush_all t₁.buffer_pool t₁.pager
  (_, t₂) ← delete (2 ∷ []) 4 (record t₁ { pager = pager₁; buffer_pool = pool₁ })
  (pool₂, pager₂) ← Cache.flush_all t₂.buffer_pool t₂.pager
  (_, t₃) ← delete (3 ∷ []) 5 (record t₂ { pager = pager₂; buffer_pool = pool₂ })
  ok t₃

evicted : evicting ≡ err key_error
unfolding program evicting
evicted = refl
