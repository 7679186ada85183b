-- ===== src/Tree/Content/Cached.antt =====
-- The pages that the buffer pool of src/bptreedb/cache.py shows: those in the pool, and those on disk
-- behind them.
use bptreedb.Prelude.{
  ℕ, ◌+◌, ◌≡◌, refl, sym, ap, ◌∙◌, true, false, Option, none, some, List, ◌==◌, length, arith,
  Option-cases, Bool-cases, inl, inr, eq_of_some, if_true, if_false,
}
use mathlib.Core.Path.{fun_ext}
use bptreedb.Exceptions.{ok}
use bptreedb.Sequence.{get, put, get-put}
use bptreedb.Entities.{TreePage}
use bptreedb.Pager
use bptreedb.Pager.{Pager, meta_page_id, page_bytes, read_page}
use bptreedb.Cache.{CachedPage, BufferPool, BufferPoolStats, hit, miss, get_page}
use bptreedb.Cache.Disk.{on_disk, shown, IsClean, on_disk-some}
use bptreedb.Cache.Places.{IsUnique, put-IsUnique, dirty_ids-put, move_to_end-Used}
use bptreedb.Cache.Room.{IsKept, IsKept-none, HasRoom, Evicted, evict-Evicted}
use bptreedb.Tree.Store.Pool.{BPlusTree, fetch, pool_store}
use bptreedb.Tree.Content.{Reads}

unfoldable pub pages_of : BPlusTree → ℕ → Option TreePage
unfolding shown
pages_of t i = shown (get i t.buffer_pool.cached) (on_disk t.pager i)

pub record IsCoherent (t : BPlusTree) : Type 0 where
  pub is_open : t.pager.is_open ≡ true
  pub is_unique : IsUnique t.buffer_pool.cached
  pub is_clean : IsClean t.pager t.buffer_pool.cached
  pub has_room : HasRoom t.buffer_pool

shown-IsKept :
    (p : Pager) (items kept : List (ℕ × CachedPage)) (i : ℕ)
    → IsClean p items
    → IsKept items kept i
    → shown (get i kept) (on_disk p i) ≡ shown (get i items) (on_disk p i)
unfolding shown
shown-IsKept p items kept i clean (inl same) = ap (λ o. shown o (on_disk p i)) same
shown-IsKept p items kept i clean (inr (gone, (c, at, e))) = rw (gone, at) (clean i c at e)

IsClean-kept :
    (p : Pager) (items kept : List (ℕ × CachedPage))
    → IsClean p items
    → ((i : ℕ) → IsKept items kept i)
    → IsClean p kept
IsClean-kept p items kept clean h i c at e = elim (h i) [
  | inl same ↦ clean i c (sym same ∙ at) e
  | inr (gone, _) ↦ absurd (let bad : none ≡ some c = sym gone ∙ at in cc)
]

IsClean-put :
    (p : Pager) (items : List (ℕ × CachedPage)) (j : ℕ) (new : CachedPage)
    → IsClean p items
    → on_disk p j ≡ some new.page
    → IsClean p (put j new items)
IsClean-put p items j new clean there i c at e = elim (Bool-cases (j == i)) [
  | inl y ↦
      (let same : j ≡ i = ground (arith, y) in
        let is_new : new ≡ c = eq_of_some (sym (get-put j i new items ∙ if_true _ _ y) ∙ at) in
        ap (on_disk p) (sym same) ∙ there ∙ ap (λ (d : CachedPage). some d.page) is_new)
  | inr n ↦ clean i c (sym (get-put j i new items ∙ if_false _ _ n) ∙ at) e
]

shown-put :
    (p : Pager) (items kept : List (ℕ × CachedPage)) (i j : ℕ) (new : CachedPage)
    → IsClean p items
    → IsKept items kept i
    → get j items ≡ none
    → on_disk p j ≡ some new.page
    → shown (get i (put j new kept)) (on_disk p i) ≡ shown (get i items) (on_disk p i)
unfolding shown
shown-put p items kept i j new clean h g there = elim (Bool-cases (j == i)) [
  | inl y ↦
      (let same : j ≡ i = ground (arith, y) in
        let at : get i items ≡ none = ap (λ k. get k items) (sym same) ∙ g in
        let there' : on_disk p i ≡ some new.page = ap (on_disk p) (sym same) ∙ there in
        ap (λ o. shown o (on_disk p i)) (get-put j i new kept ∙ if_true _ _ y)
        ∙ sym there'
        ∙ ap (λ o. shown o (on_disk p i)) (sym at))
  | inr n ↦
      ap (λ o. shown o (on_disk p i)) (get-put j i new kept ∙ if_false _ _ n)
      ∙ shown-IsKept p items kept i clean h
]

HasRoom-put :
    (j : ℕ) (page : TreePage) (pool pool' : BufferPool) (stats : BufferPoolStats)
    → Evicted pool pool'
    → HasRoom pool
    → get j pool'.cached ≡ none
    → HasRoom (record pool' {
      cached = put j (record { page = page; is_dirty = false }) pool'.cached;
      stats = stats;
    })
HasRoom-put j page pool pool' stats e room gone on =
    let count = dirty_ids-put j (record { page = page; is_dirty = false }) pool'.cached gone in
    let same = ap length e.trimmed.same_dirty in
    let before = room (sym e.same_switch ∙ on) in
    omega (arith, count, same, before, e.same_capacity)

-- A fetch that misses.
miss-IsCoherent :
    (j : ℕ) (page : TreePage) (t : BPlusTree)
    → IsCoherent t
    → get j t.buffer_pool.cached ≡ none
    → on_disk t.pager j ≡ some page
    → (pool : BufferPool) × (pager : Pager) × (miss j t.buffer_pool t.pager
        ≡ ok (page, pool, pager))
      × IsCoherent (record t { buffer_pool = pool; pager = pager })
      × ((i : ℕ) → pages_of (record t { buffer_pool = pool; pager = pager }) i ≡ pages_of t i)
      × (pager.meta ≡ t.pager.meta)
unfolding miss pages_of on_disk
miss-IsCoherent j page t h g there =
    let (pool, evicted, e) = evict-Evicted t.buffer_pool h.is_unique h.has_room in
    let (read, (decoded, d₁, d₂)) = on_disk-some t.pager j page h.is_open there in
    let new : CachedPage = record { page = page; is_dirty = false } in
    let pool' : BufferPool = record pool {
      cached = put j new pool.cached;
      stats = record pool.stats { cache_misses = pool.stats.cache_misses + 1 };
    } in
    let pager' = record t.pager {
      stats = record t.pager.stats { page_reads = t.pager.stats.page_reads + 1 };
    } in
    let gone : get j pool.cached ≡ none =
      IsKept-none t.buffer_pool.cached pool.cached j (e.trimmed.is_kept j) g in
    (
      pool',
      pager',
      rw (evicted, read, d₁, d₂),
      record {
        is_open = h.is_open;
        is_unique = put-IsUnique j new pool.cached e.trimmed.is_unique;
        is_clean =
            IsClean-put t.pager pool.cached j new
              (IsClean-kept t.pager t.buffer_pool.cached pool.cached h.is_clean e.trimmed.is_kept)
              there;
        has_room = HasRoom-put j page t.buffer_pool pool pool'.stats e h.has_room gone;
      },
      λ i.
          shown-put t.pager t.buffer_pool.cached pool.cached i j new h.is_clean
            (e.trimmed.is_kept i) g there,
      refl,
    )

-- A fetch that hits.
hit-IsCoherent :
    (j : ℕ) (c : CachedPage) (t : BPlusTree)
    → IsCoherent t
    → get j t.buffer_pool.cached ≡ some c
    → IsCoherent (record t { buffer_pool = hit j c t.buffer_pool })
      × ((i : ℕ) → pages_of (record t { buffer_pool = hit j c t.buffer_pool }) i ≡ pages_of t i)
unfolding pages_of
hit-IsCoherent j c t h at =
    let used = move_to_end-Used j c t.buffer_pool.cached h.is_unique at in
    (
      record {
        is_open = h.is_open;
        is_unique = used.is_unique;
        is_clean = λ i d there clean. h.is_clean i d (sym (used.same_pages i) ∙ there) clean;
        has_room = λ on. rw used.same_count (h.has_room on);
      },
      λ i. ap (λ o. shown o (on_disk t.pager i)) (used.same_pages i),
    )

-- On an open pager, with a pool that has no page ID twice, whose clean pages are those on disk,
-- and that has fewer dirty pages than its capacity or does not evict: a `get` of a page that the
-- pool or the data file shows returns it, whether it hits or misses and evicts; the pool stays
-- that way, and neither the pages that are shown nor the meta page change.
pub fetch-IsCoherent :
    (j : ℕ) (page : TreePage) (t : BPlusTree)
    → IsCoherent t
    → pages_of t j ≡ some page
    → (t' : BPlusTree) × (fetch j t ≡ ok (page, t'))
      × IsCoherent t'
      × (pages_of t' ≡ pages_of t)
      × (Pager.get_meta t'.pager ≡ Pager.get_meta t.pager)
unfolding fetch get_page pages_of shown Pager.get_meta
fetch-IsCoherent j page t h there = elim (Option-cases (get j t.buffer_pool.cached)) [
  | inl g ↦
      (let disk : on_disk t.pager j ≡ some page = rw g at there in
        let (pool, pager, missed, h', same, same_meta) = miss-IsCoherent j page t h g disk in
        (
          record t { buffer_pool = pool; pager = pager },
          rw (get_page, g, missed),
          h',
          fun_ext same,
          rw (Pager.get_meta, same_meta),
        ))
  | inr (c, at) ↦
      (let is_page : c.page ≡ page = eq_of_some (rw at at there) in
        let (h', same) = hit-IsCoherent j c t h at in
        (
          record t { buffer_pool = hit j c t.buffer_pool },
          rw (get_page, at, is_page),
          h',
          fun_ext same,
          refl,
        ))
]

-- The pager with the buffer pool is a page store to read from.
abbrev pub pool_reads : Reads pool_store
pool_reads = record { IsValid = IsCoherent; view = pages_of; fetch_lem = fetch-IsCoherent }
