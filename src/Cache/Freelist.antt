-- ===== src/Cache/Freelist.antt =====
-- `flush_dirty_freelist_pages` of src/bptreedb/pager.py and the tree pages in the data file.
use bptreedb.Prelude.{
  ℕ, ◌≡◌, refl, sym, ap, ◌∙◌, false, none, some, List, [], ◌∷◌, arith, ◌==◌, Option-cases,
  Bool-cases, inl, inr,
}
use bptreedb.Exceptions.{ok}
use bptreedb.Sequence.{get, sorted}
use bptreedb.Struct.{Bytes}
use bptreedb.Entities.{TreePage, FreelistPage, freelist}
use bptreedb.Codec.Page.{encode_page}
use bptreedb.Codec.Page.RoundTrip.{FitsFreelist, decode-encode_page}
use bptreedb.Pager.{Pager, write_page, flush_freelist_ids, flush_dirty_freelist_pages}
use bptreedb.Cache.Disk.{on_disk, written, on_disk-other}
use bptreedb.Cache.Clean.{IsReady, IsReady-written}
use bptreedb.Cache.Flush.{write_page-written}

-- Every cached freelist page can be encoded.
abbrev pub FreelistFits : Pager → Type 0
FreelistFits p =
    (k : ℕ) (page : FreelistPage)
    → get k p.freelist_cache ≡ some page
    → FitsFreelist p.page_size_bytes page

-- The pager behind the writes: the pages that are no cached freelist pages are still there.
pub record FreelistFlushed (p p' : Pager) : Type 0 where
  pub is_ready : IsReady p'
  pub same_size : p'.page_size_bytes ≡ p.page_size_bytes
  pub same_meta : p'.meta ≡ p.meta
  pub kept :
      (i : ℕ) (page : TreePage)
      → get i p.freelist_cache ≡ none
      → on_disk p i ≡ some page
      → on_disk p' i ≡ some page

flush_one :
    (k : ℕ) (ids : List ℕ) (page : FreelistPage) (p p₁ p' : Pager) (bytes : Bytes)
    → get k p.freelist_cache ≡ some page
    → encode_page (freelist page) p.page_size_bytes ≡ ok bytes
    → write_page k bytes p ≡ ok p₁
    → flush_freelist_ids ids p₁ ≡ ok p'
    → flush_freelist_ids (k ∷ ids) p ≡ ok p'
unfolding flush_freelist_ids
flush_one k ids page p p₁ p' bytes at encoded wrote run =
    rw (flush_freelist_ids, at, encoded, wrote) run

flush_none :
    (k : ℕ) (ids : List ℕ) (p p' : Pager)
    → get k p.freelist_cache ≡ none
    → flush_freelist_ids ids p ≡ ok p'
    → flush_freelist_ids (k ∷ ids) p ≡ ok p'
unfolding flush_freelist_ids
flush_none k ids p p' absent run = rw (flush_freelist_ids, absent) run

-- Another ID than that of a cached page.
apart_of :
    (i k : ℕ) (page : FreelistPage) (p : Pager)
    → get i p.freelist_cache ≡ none
    → get k p.freelist_cache ≡ some page
    → (i == k) ≡ false
apart_of i k page p absent at = elim (Bool-cases (i == k)) [
  | inl y ↦ absurd (
      let same : i ≡ k = ground (arith, y) in
      let bad : none ≡ some page = sym absent ∙ ap (λ j. get j p.freelist_cache) same ∙ at in cc)
  | inr n ↦ n
]

flush_freelist_ids-FreelistFlushed :
    (ids : List ℕ) (p : Pager)
    → IsReady p
    → FreelistFits p
    → (p' : Pager) × (flush_freelist_ids ids p ≡ ok p') × FreelistFlushed p p'
unfolding flush_freelist_ids
flush_freelist_ids-FreelistFlushed [] p ready fits = (
  p,
  refl,
  record { is_ready = ready; same_size = refl; same_meta = refl; kept = λ i page absent h. h },
)
flush_freelist_ids-FreelistFlushed (k ∷ ids) p ready fits =
    elim (Option-cases (get k p.freelist_cache)) [
      | inl absent ↦
          (let (p', run, f) = flush_freelist_ids-FreelistFlushed ids p ready fits in
            (p', flush_none k ids p p' absent run, f))
      | inr (page, at) ↦
          (let (bytes, encoded, whole, _) =
              decode-encode_page (freelist page) p.page_size_bytes (fits k page at) in
            let p₁ = written k bytes p in
            let (p', run, f) =
              flush_freelist_ids-FreelistFlushed ids p₁ (IsReady-written k bytes p ready) fits in
            (
              p',
              flush_one k ids page p p₁ p' bytes at encoded
                  (write_page-written k bytes p ready.is_open) run,
              record {
                is_ready = f.is_ready;
                same_size = f.same_size;
                same_meta = f.same_meta;
                kept = λ i q absent h. f.kept i q absent (
                    on_disk-other p k i bytes q ready.has_first whole
                      (apart_of i k page p absent at) h);
              },
            ))
    ]

pub flush_freelist-FreelistFlushed :
    (p : Pager)
    → IsReady p
    → FreelistFits p
    → (p' : Pager) × (flush_dirty_freelist_pages p ≡ ok p') × FreelistFlushed p p'
unfolding flush_dirty_freelist_pages on_disk
flush_freelist-FreelistFlushed p ready fits =
    let (p', run, f) =
      flush_freelist_ids-FreelistFlushed (sorted p.dirty_freelist_page_ids) p ready fits in
    (
      record p' { dirty_freelist_page_ids = [] },
      rw run,
      record {
        is_ready = record { is_open = f.is_ready.is_open; has_first = f.is_ready.has_first };
        same_size = f.same_size;
        same_meta = f.same_meta;
        kept = f.kept;
      },
    )
