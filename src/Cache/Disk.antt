-- ===== src/Cache/Disk.antt =====
-- The pages that stand behind the buffer pool of src/bptreedb/cache.py in the data file.
use bptreedb.Prelude.{
  ℕ, ◌+◌, ◌*◌, ◌≤◌, ◌≡◌, refl, ◌∙◌, true, false, Option, none, some, List, ◌||◌, ◌==◌, length, drop,
  arith, Bool-cases, inl, inr, length-take, length-drop, if_false, if_true, if◌then◌else◌, ==-refl,
}
use bptreedb.Exceptions.{Result, ok, err, ◌>>=◌, >>=-eq-ok}
use bptreedb.Sequence.{get}
use bptreedb.Struct.{Bytes}
use bptreedb.Entities.{TreePage, Page, tree}
use bptreedb.Codec.Page.{decode_page}
use bptreedb.Pager.{Pager, meta_page_id, page_bytes, read_page, write_at}
use bptreedb.Pager.Pages.{page_bytes_after}
use bptreedb.Cache.{CachedPage, as_tree}

unfoldable pub returned_page : Result TreePage → Option TreePage
returned_page (err e) = none
returned_page (ok page) = some page

-- The tree page that the file holds under an ID.
unfoldable pub on_disk : Pager → ℕ → Option TreePage
unfolding returned_page
on_disk p i =
    if i == meta_page_id || length (page_bytes i p) == p.page_size_bytes
    then returned_page (decode_page (page_bytes i p) >>= as_tree)
    else none

unfoldable pub shown : Option CachedPage → Option TreePage → Option TreePage
shown none page = page
shown (some c) page = some c.page

-- The clean pages in the pool are those on disk.
abbrev pub IsClean : Pager → List (ℕ × CachedPage) → Type 0
IsClean p items =
    (i : ℕ) (c : CachedPage) → get i items ≡ some c → c.is_dirty ≡ false → on_disk p i ≡ some c.page

pub returned_page-some :
    (r : Result TreePage) (page : TreePage) → returned_page r ≡ some page → r ≡ ok page
unfolding returned_page
returned_page-some (err e) page h = cc
returned_page-some (ok x) page h = cc

-- A page that is on disk is read and decoded.
pub on_disk-some :
    (p : Pager) (i : ℕ) (page : TreePage)
    → p.is_open ≡ true
    → on_disk p i ≡ some page
    → (read_page i p
        ≡ ok (
          page_bytes i p,
          record p { stats = record p.stats { page_reads = p.stats.page_reads + 1 } },
        ))
      × ((decoded : Page) × (decode_page (page_bytes i p) ≡ ok decoded)
          × (as_tree decoded ≡ ok page))
unfolding on_disk read_page
on_disk-some p i page o h =
    elim (Bool-cases (i == meta_page_id || length (page_bytes i p) == p.page_size_bytes)) [
      | inl whole ↦
          (let e =
              returned_page-some (decode_page (page_bytes i p) >>= as_tree) page (rw whole at h) in
            (rw (o, whole), >>=-eq-ok (decode_page (page_bytes i p)) as_tree e))
      | inr short ↦ absurd (let bad : none ≡ some page = rw short at h in cc)
    ]

-- The file holds a page of the tree.
pub on_disk-written :
    (p : Pager) (i : ℕ) (page : TreePage) (bytes : Bytes)
    → page_bytes i p ≡ bytes
    → length bytes ≡ p.page_size_bytes
    → decode_page bytes ≡ ok (tree page)
    → on_disk p i ≡ some page
unfolding on_disk returned_page as_tree
on_disk-written p i page bytes at whole decoded = rw (at, decoded) (ground (arith, whole))

-- A page that the file holds is whole, page 0 behind the first page's length, too.
pub on_disk-whole :
    (p : Pager) (i : ℕ) (page : TreePage)
    → p.page_size_bytes ≤ length p.file
    → on_disk p i ≡ some page
    → (i + 1) * p.page_size_bytes ≤ length p.file
unfolding on_disk
on_disk-whole p i page first h =
    elim (Bool-cases (i == meta_page_id || length (page_bytes i p) == p.page_size_bytes)) [
      | inl whole ↦ grind (
        arith,
        whole,
        first,
        length-take p.page_size_bytes (drop (i * p.page_size_bytes) p.file),
        length-drop (i * p.page_size_bytes) p.file,
      )
      | inr short ↦ absurd (let bad : none ≡ some page = rw short at h in cc)
    ]

-- What `write_page` leaves.
abbrev pub written : ℕ → Bytes → Pager → Pager
written i bytes p = record p {
  file = write_at (i * p.page_size_bytes) bytes p.file;
  stats = record p.stats { page_writes = p.stats.page_writes + 1 };
}

-- A write of another page.
pub on_disk-other :
    (p : Pager) (i j : ℕ) (bytes : Bytes) (page : TreePage)
    → p.page_size_bytes ≤ length p.file
    → length bytes ≡ p.page_size_bytes
    → (j == i) ≡ false
    → on_disk p j ≡ some page
    → on_disk (written i bytes p) j ≡ some page
unfolding on_disk
on_disk-other p i j bytes page first whole apart h =
    let there = page_bytes_after i j bytes p whole (inr (on_disk-whole p j page first h)) in
    let same : page_bytes j (written i bytes p) ≡ page_bytes j p = there.0 ∙ if_false _ _ apart in
    rw same h

-- A write of the page itself.
pub on_disk-itself :
    (p : Pager) (i : ℕ) (bytes : Bytes) (page : TreePage)
    → length bytes ≡ p.page_size_bytes
    → decode_page bytes ≡ ok (tree page)
    → on_disk (written i bytes p) i ≡ some page
on_disk-itself p i bytes page whole decoded =
    let there = page_bytes_after i i bytes p whole (inl refl) in
    on_disk-written (written i bytes p) i page bytes (there.0 ∙ if_true _ _ (==-refl i)) whole
      decoded
