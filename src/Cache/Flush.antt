-- ===== src/Cache/Flush.antt =====
-- `flush_all` of src/bptreedb/cache.py: what the data file holds behind it.
use bptreedb.Prelude.{
  ℕ, suc, ◌+◌, ◌≡◌, refl, ap, ◌∙◌, Bool, true, false, some, [], ◌∷◌, ◌==◌, arith, Bool-cases, inl,
  inr,
}
use bptreedb.Exceptions.{ok, ◌>>◌, guard, assertion_error}
use bptreedb.Sequence.{get}
use bptreedb.Struct.{Bytes}
use bptreedb.Entities.{TreePage, tree}
use bptreedb.Codec.Page.{encode_page}
use bptreedb.Codec.Page.RoundTrip.{decode-encode_page}
use bptreedb.Pager.{Pager, write_page}
use bptreedb.Cache.{CachedPage, BufferPool, get_dirty_page_ids, flush_items, flush_all}
use bptreedb.Cache.Places.{Cached, IsUnique}
use bptreedb.Cache.Disk.{on_disk, shown, IsClean, written, on_disk-other, on_disk-itself}
use bptreedb.Cache.Clean.{
  IsReady, IsReady-written, IsEncodable, Flushed, IsClean-tail, Flushed-cons,
}

pub write_page-written :
    (j : ℕ) (bytes : Bytes) (p : Pager)
    → p.is_open ≡ true
    → write_page j bytes p ≡ ok (written j bytes p)
unfolding write_page
write_page-written j bytes p h = ap (λ b. guard b assertion_error >> ok (written j bytes p)) h

flush_dirty :
    (j : ℕ) (c : CachedPage) (items clean : Cached) (p p₁ p' : Pager) (count : ℕ) (bytes : Bytes)
    → c.is_dirty ≡ true
    → encode_page (tree c.page) p.page_size_bytes ≡ ok bytes
    → write_page j bytes p ≡ ok p₁
    → flush_items items p₁ ≡ ok (clean, count, p')
    → flush_items ((j, c) ∷ items) p
      ≡ ok ((j, record c { is_dirty = false }) ∷ clean, suc count, p')
unfolding flush_items
flush_dirty j c items clean p p₁ p' count bytes dirty encoded wrote run =
    rw (dirty, encoded, wrote, run)

flush_clean :
    (j : ℕ) (c : CachedPage) (items clean : Cached) (p p' : Pager) (count : ℕ)
    → c.is_dirty ≡ false
    → flush_items items p ≡ ok (clean, count, p')
    → flush_items ((j, c) ∷ items) p ≡ ok ((j, record c { is_dirty = false }) ∷ clean, count, p')
unfolding flush_items
flush_clean j c items clean p p' count unchanged run =
    let as_it_is : flush_items ((j, c) ∷ items) p ≡ ok ((j, c) ∷ clean, count, p') =
      rw (unchanged, run) in
    as_it_is ∙ ap (λ (b : Bool). ok ((j, record c { is_dirty = b }) ∷ clean, count, p')) unchanged

flush_items-Flushed :
    (items : Cached) (p : Pager)
    → IsUnique items
    → IsClean p items
    → IsEncodable p.page_size_bytes items
    → IsReady p
    → (clean : Cached) × (count : ℕ) × (p' : Pager) × (flush_items items p ≡ ok (clean, count, p'))
      × Flushed items p clean count p'
unfolding flush_items get shown
flush_items-Flushed [] p u clean fits ready = (
  [],
  0,
  p,
  refl,
  record {
    none_dirty = unfold get_dirty_page_ids in refl;
    counted = unfold get_dirty_page_ids in refl;
    is_unique = tt;
    same_pages = λ i page. refl;
    same_absent = λ i h. h;
    is_ready = ready;
    same_size = refl;
    same_meta = refl;
    same_freelist = refl;
    stored = λ i page h. h;
  },
)
flush_items-Flushed ((j, c) ∷ items) p u clean fits ready = elim (Bool-cases c.is_dirty) [
  | inl dirty ↦
      (let (bytes, encoded, whole, decoded) =
          decode-encode_page (tree c.page) p.page_size_bytes (fits.0 dirty) in
        let p₁ = written j bytes p in
        let other = λ (k : ℕ) (q : TreePage) (apart : (k == j) ≡ false) (h : on_disk p k ≡ some q).
          on_disk-other p j k bytes q ready.has_first whole apart h in
        let (clean', count, p', run, f) =
          flush_items-Flushed items p₁ u.1 (IsClean-tail p p₁ j c items u.0 other clean) fits.1
            (IsReady-written j bytes p ready) in
        (
          (j, record c { is_dirty = false }) ∷ clean',
          suc count,
          p',
          flush_dirty j c items clean' p p₁ p' count bytes dirty encoded
              (write_page-written j bytes p ready.is_open) run,
          Flushed-cons j c items clean' p p₁ p' count (suc count) u.0
              (on_disk-itself p j bytes c.page whole decoded) other refl refl refl f
              (rw dirty (omega arith)),
        ))
  | inr unchanged ↦
      (let here : on_disk p j ≡ some c.page = clean j c (unfold get in ground arith) unchanged in
        let (clean', count, p', run, f) =
          flush_items-Flushed items p u.1 (IsClean-tail p p j c items u.0 (λ k q apart h. h) clean)
            fits.1 ready in
        (
          (j, record c { is_dirty = false }) ∷ clean',
          count,
          p',
          flush_clean j c items clean' p p' count unchanged run,
          Flushed-cons j c items clean' p p p' count count u.0 here (λ k q apart h. h) refl refl
              refl f (rw unchanged (omega arith)),
        ))
]

-- On an open pager whose file has its first page, for a pool without a page ID that stands twice,
-- whose clean pages are those on disk and whose dirty pages can be encoded: `flush_all` ends
-- without an exception; afterwards no page is dirty, the pool has the same pages, the data file
-- holds every page that the pool or the file showed before, and as many pages are counted as were
-- dirty.
pub flush_all-Flushed :
    (pool : BufferPool) (p : Pager)
    → IsUnique pool.cached
    → IsClean p pool.cached
    → IsEncodable p.page_size_bytes pool.cached
    → IsReady p
    → (pool' : BufferPool) × (count : ℕ) × (p' : Pager) × (flush_all pool p ≡ ok (pool', p'))
      × Flushed pool.cached p pool'.cached count p'
      × (pool'.stats.dirty_pages_flushed ≡ pool.stats.dirty_pages_flushed + count)
unfolding flush_all
flush_all-Flushed pool p u clean fits ready =
    let (clean', count, p', run, f) = flush_items-Flushed pool.cached p u clean fits ready in
    (
      record pool {
        cached = clean';
        stats = record pool.stats {
          flushes = pool.stats.flushes + 1;
          dirty_pages_flushed = pool.stats.dirty_pages_flushed + count;
        };
      },
      count,
      p',
      rw run,
      f,
      refl,
    )
