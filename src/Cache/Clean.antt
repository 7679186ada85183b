-- ===== src/Cache/Clean.antt =====
-- A pool of src/bptreedb/cache.py whose pages are on disk, page by page.
use bptreedb.Prelude.{
  ℕ, ◌+◌, ◌*◌, ◌≤◌, ◌≡◌, sym, ap, ◌∙◌, true, false, Option, none, some, [], ◌∷◌, ◌==◌, length,
  arith, All, Bool-cases, inl, inr, if_false, if◌then◌else◌,
}
use bptreedb.Sequence.{get}
use bptreedb.Struct.{Bytes}
use bptreedb.Entities.{TreePage, tree}
use bptreedb.Codec.Page.RoundTrip.{FitsPage}
use bptreedb.Pager.{Pager}
use bptreedb.Pager.Pages.{length-write_at}
use bptreedb.Cache.{CachedPage, get_dirty_page_ids}
use bptreedb.Cache.Places.{Cached, IsUnique}
use bptreedb.Cache.Disk.{on_disk, shown, IsClean, written}

-- An open pager whose file has its first page.
pub record IsReady (p : Pager) : Type 0 where
  pub is_open : p.is_open ≡ true
  pub has_first : p.page_size_bytes ≤ length p.file

pub IsReady-written : (i : ℕ) (bytes : Bytes) (p : Pager) → IsReady p → IsReady (written i bytes p)
IsReady-written i bytes p h = record {
  is_open = h.is_open;
  has_first = omega (arith, h.has_first, length-write_at (i * p.page_size_bytes) bytes p.file);
}

-- Every dirty page can be encoded.
abbrev pub IsEncodable : ℕ → Cached → Type 0
IsEncodable n = All (λ e. e.1.is_dirty ≡ true → FitsPage n (tree e.1.page))

-- The items and the pager behind the loop: the pages are the same ones, none of them is dirty, and the
-- file holds all pages that were shown.
pub record Flushed (items : Cached) (p : Pager) (clean : Cached) (count : ℕ) (p' : Pager)
    : Type 0 where
  pub none_dirty : get_dirty_page_ids clean ≡ []
  pub counted : count ≡ length (get_dirty_page_ids items)
  pub is_unique : IsUnique clean
  pub same_pages :
      (i : ℕ) (page : Option TreePage) → shown (get i clean) page ≡ shown (get i items) page
  pub same_absent : (i : ℕ) → get i items ≡ none → get i clean ≡ none
  pub is_ready : IsReady p'
  pub same_size : p'.page_size_bytes ≡ p.page_size_bytes
  pub same_meta : p'.meta ≡ p.meta
  pub same_freelist : p'.freelist_cache ≡ p.freelist_cache
  pub stored :
      (i : ℕ) (page : TreePage)
      → shown (get i items) (on_disk p i) ≡ some page
      → on_disk p' i ≡ some page

shown_moved :
    (o : Option CachedPage) (before after : Option TreePage) (page : TreePage)
    → (before ≡ some page → after ≡ some page)
    → shown o before ≡ some page
    → shown o after ≡ some page
unfolding shown
shown_moved none before after page move h = move h
shown_moved (some c) before after page move h = h

-- The pages behind the first item are shown as before, when it is on disk.
shown-tail :
    (p p₁ : Pager) (j i : ℕ) (c : CachedPage) (items : Cached) (page : TreePage)
    → get j items ≡ none
    → on_disk p₁ j ≡ some c.page
    → ((k : ℕ) (q : TreePage) → (k == j) ≡ false → on_disk p k ≡ some q → on_disk p₁ k ≡ some q)
    → shown (get i ((j, c) ∷ items)) (on_disk p i) ≡ some page
    → shown (get i items) (on_disk p₁ i) ≡ some page
unfolding get shown
shown-tail p p₁ j i c items page fresh here other h = elim (Bool-cases (j == i)) [
  | inl y ↦
      (let same : j ≡ i = ground (arith, y) in
        let h' : some c.page ≡ some page = rw y at h in
        let gone : get i items ≡ none = ap (λ k. get k items) (sym same) ∙ fresh in
        ap (λ o. shown o (on_disk p₁ i)) gone ∙ ap (on_disk p₁) (sym same) ∙ here ∙ h')
  | inr n ↦
      (let h' : shown (get i items) (on_disk p i) ≡ some page = rw n at h in
        let apart : (i == j) ≡ false = ground (arith, n) in
        shown_moved (get i items) (on_disk p i) (on_disk p₁ i) page (λ e. other i page apart e) h')
]

pub IsClean-tail :
    (p p₁ : Pager) (j : ℕ) (c : CachedPage) (items : Cached)
    → get j items ≡ none
    → ((k : ℕ) (q : TreePage) → (k == j) ≡ false → on_disk p k ≡ some q → on_disk p₁ k ≡ some q)
    → IsClean p ((j, c) ∷ items)
    → IsClean p₁ items
unfolding get
IsClean-tail p p₁ j c items fresh other clean i d at e = elim (Bool-cases (j == i)) [
  | inl y ↦ absurd (
      let same : j ≡ i = ground (arith, y) in
      let bad : none ≡ some d = sym fresh ∙ ap (λ k. get k items) same ∙ at in cc)
  | inr n ↦
      (let apart : (i == j) ≡ false = ground (arith, n) in
        other i d.page apart (clean i d (if_false _ _ n ∙ at) e))
]

-- One more item in front of the flushed ones.
pub Flushed-cons :
    (j : ℕ) (c : CachedPage) (items clean : Cached) (p p₁ p' : Pager) (count count' : ℕ)
    → get j items ≡ none
    → on_disk p₁ j ≡ some c.page
    → ((k : ℕ) (q : TreePage) → (k == j) ≡ false → on_disk p k ≡ some q → on_disk p₁ k ≡ some q)
    → p₁.page_size_bytes ≡ p.page_size_bytes
    → p₁.meta ≡ p.meta
    → p₁.freelist_cache ≡ p.freelist_cache
    → Flushed items p₁ clean count p'
    → count' ≡ (if c.is_dirty then 1 else 0) + count
    → Flushed ((j, c) ∷ items) p ((j, record c { is_dirty = false }) ∷ clean) count' p'
unfolding get shown get_dirty_page_ids
Flushed-cons j c items clean p p₁ p' count count' fresh here other size meta free f total = record {
  none_dirty = f.none_dirty;
  counted = elim (Bool-cases c.is_dirty) [
    | inl dirty ↦
        (let t : count' ≡ 1 + count = rw dirty at total in rw dirty (omega (arith, f.counted, t)))
    | inr clean ↦
        (let t : count' ≡ 0 + count = rw clean at total in rw clean (omega (arith, f.counted, t)))
  ];
  is_unique = (f.same_absent j fresh, f.is_unique);
  same_pages =
      λ i page. elim (Bool-cases (j == i)) [ inl y ↦ rw y | inr n ↦ rw n (f.same_pages i page) ];
  same_absent = λ i h. elim (Bool-cases (j == i)) [
    | inl y ↦ absurd (let bad : some c ≡ none = rw y at h in cc)
    | inr n ↦ (let h' : get i items ≡ none = rw n at h in rw n (f.same_absent i h'))
  ];
  is_ready = f.is_ready;
  same_size = f.same_size ∙ size;
  same_meta = f.same_meta ∙ meta;
  same_freelist = f.same_freelist ∙ free;
  stored = λ i page h. f.stored i page (shown-tail p p₁ j i c items page fresh here other h);
}
