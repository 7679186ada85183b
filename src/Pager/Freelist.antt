-- ===== src/Pager/Freelist.antt =====
-- `free_page` and `allocate_page` of src/bptreedb/pager.py.
use bptreedb.Prelude.{
  ℕ, ◌+◌, ◌≡◌, ◌≢◌, refl, sym, ap, ◌∙◌, false, Option, some, List, [], ◌∷◌, ◌++◌, arith, ◌==◌, ltb,
  length, replicate, Bool-cases, Option-cases, if_true, ==-refl, inl, inr,
}
use bptreedb.Exceptions.{ok, assertion_error, >>=-eq-ok, ok-injective, guard}
use bptreedb.Sequence.{pop_last-append, get, get-put}
use bptreedb.Struct.{Bytes}
use bptreedb.Entities.{MetaPage, FreelistPage}
use bptreedb.Codec.Sizes.{get_max_freed_ids_per_freelist_page}
use bptreedb.Codec.Page.{decode_page}
use bptreedb.Pager.{
  Pager, get_meta, read_page, as_freelist, load_freelist_page, get_freelist_page,
  mark_freelist_page_dirty, update_meta, bump_allocate_one_page, reuse_entry, allocate_from,
  allocate_page, free_into_new_head, free_page, forget_reused,
}

get_meta_lem : (p : Pager) (m : MetaPage) → p.meta ≡ some m → get_meta p ≡ ok m
unfolding get_meta
get_meta_lem p m e = rw e

get_freelist_page-cached :
    (i : ℕ) (p : Pager) (page : FreelistPage)
    → get i p.freelist_cache ≡ some page
    → get_freelist_page i p ≡ ok (page, p)
unfolding get_freelist_page
get_freelist_page-cached i p page e = rw (get_freelist_page, e)

-- The head page is in memory and its last entry is `x`.
allocate_entry :
    (p : Pager) (m : MetaPage) (page : FreelistPage) (xs : List ℕ) (x : ℕ)
    → p.meta ≡ some m
    → (m.freelist_head_page_id == 0) ≡ false
    → get m.freelist_head_page_id p.freelist_cache ≡ some page
    → page.freed_page_ids ≡ xs ++ x ∷ []
    → (q : Pager) × (allocate_page p ≡ ok (x, q))
unfolding allocate_page allocate_from reuse_entry
allocate_entry p m page xs x e h g l = (
  forget_reused x
      (mark_freelist_page_dirty m.freelist_head_page_id (record page { freed_page_ids = xs }) p),
  rw (
    get_meta_lem p m e,
    h,
    get_freelist_page-cached m.freelist_head_page_id p page g,
    l,
    pop_last-append xs x,
  ),
)

read_page-meta : (i : ℕ) (p p' : Pager) (b : Bytes) → read_page i p ≡ ok (b, p') → p'.meta ≡ p.meta
unfolding read_page
read_page-meta i p p' b h = ground arith

load_freelist_page-keeps :
    (i : ℕ) (p p' : Pager) (page : FreelistPage)
    → load_freelist_page i p ≡ ok (page, p')
    → (p'.meta ≡ p.meta) × (get i p'.freelist_cache ≡ some page)
unfolding load_freelist_page
load_freelist_page-keeps i p p' page h =
    let (r, e, h₁) = >>=-eq-ok (read_page i p) _ h in
    let (decoded, e', h₂) = >>=-eq-ok (decode_page r.0) _ h₁ in
    let (l, e'', h₃) = >>=-eq-ok (as_freelist decoded) _ h₂ in
    let same = ok-injective h₃ in
    (
      ap (λ s. s.1.meta) (sym same) ∙ read_page-meta i p r.1 r.0 e,
      ap (λ s. get i s.1.freelist_cache) (sym same)
          ∙ get-put i i l r.1.freelist_cache
          ∙ if_true _ _ (==-refl i)
          ∙ ap (λ s. some s.0) same,
    )

get_freelist_page-keeps :
    (i : ℕ) (p p' : Pager) (page : FreelistPage)
    → get_freelist_page i p ≡ ok (page, p')
    → (p'.meta ≡ p.meta) × (get i p'.freelist_cache ≡ some page)
unfolding get_freelist_page
get_freelist_page-keeps i p p' page h = elim (Option-cases (get i p.freelist_cache)) [
  | inl e ↦ load_freelist_page-keeps i p p' page (rw (get_freelist_page, e) at h)
  | inr (l, e) ↦
      (let h' : ok (l, p) ≡ ok (page, p') = rw (get_freelist_page, e) at h in
        let same = ok-injective h' in
        (
          ap (λ r. r.1.meta) (sym same),
          ap (λ r. get i r.1.freelist_cache) (sym same) ∙ e ∙ ap (λ r. some r.0) same,
        ))
]

update_meta_lem :
    (change : MetaPage → MetaPage) (p p' : Pager) (m : MetaPage)
    → p.meta ≡ some m
    → update_meta change p ≡ ok p'
    → (p'.meta ≡ some (change m)) × (p'.freelist_cache ≡ p.freelist_cache)
unfolding update_meta
update_meta_lem change p p' m e h =
    let (m', em, h₁) = >>=-eq-ok (get_meta p) _ h in
    let same = ok-injective h₁ in
    (
      ap (λ s. s.meta) (sym same)
          ∙ ap (λ m₀. some (change m₀)) (ok-injective (sym em ∙ get_meta_lem p m e)),
      ap (λ s. s.freelist_cache) (sym same),
    )

bump_allocate_one_page_lem :
    (p : Pager) (m : MetaPage) (i : ℕ) (p' : Pager)
    → p.meta ≡ some m
    → bump_allocate_one_page p ≡ ok (i, p')
    → (i ≡ m.next_page_id) × (p'.meta ≡ some (record m { next_page_id = m.next_page_id + 1 }))
unfolding bump_allocate_one_page
bump_allocate_one_page_lem p m i p' e h =
    let (m', em, h₁) = >>=-eq-ok (get_meta p) _ h in
    let (u, eo, h₂) = >>=-eq-ok (guard p.is_open assertion_error) _ h₁ in
    let extended : Pager = record p { file = p.file ++ replicate p.page_size_bytes 0 } in
    let change : MetaPage → MetaPage = λ m₀. record m₀ { next_page_id = m'.next_page_id + 1 } in
    let (r, eu, h₃) = >>=-eq-ok (update_meta change extended) _ h₂ in
    let same : m' ≡ m = ok-injective (sym em ∙ get_meta_lem p m e) in
    let (changed, kept) = update_meta_lem change extended r m e eu in
    let f : MetaPage → Option MetaPage =
      λ m₀. some (record m { next_page_id = m₀.next_page_id + 1 }) in
    (
      ap (λ s. s.0) (sym (ok-injective h₃)) ∙ ap (λ m₀. m₀.next_page_id) same,
      ap (λ s. s.1.meta) (sym (ok-injective h₃)) ∙ changed ∙ ap f same,
    )

-- Both ways to free a page leave it as the last entry of a head page in memory.
abbrev FreedLast : ℕ → Pager → Type 0
FreedLast i p =
    (m : MetaPage) × (page : FreelistPage) × (xs : List ℕ) × (p.meta ≡ some m)
    × ((m.freelist_head_page_id == 0) ≡ false)
    × (get m.freelist_head_page_id p.freelist_cache ≡ some page)
    × (page.freed_page_ids ≡ xs ++ i ∷ [])

free_into_new_head-FreedLast :
    (i : ℕ) (p p' : Pager) (m : MetaPage)
    → p.meta ≡ some m
    → m.next_page_id ≢ 0
    → free_into_new_head i p ≡ ok p'
    → FreedLast i p'
unfolding free_into_new_head update_meta
free_into_new_head-FreedLast i p p' m e n h =
    let ((head, r), er, h₁) = >>=-eq-ok (bump_allocate_one_page p) _ h in
    let (is_next, meta) = bump_allocate_one_page_lem p m head r e er in
    let (m', em, h₂) = >>=-eq-ok (get_meta r) _ h₁ in
    let new_page : FreelistPage = record {
      last_modified_lsn = 0;
      next_freelist_page_id = m'.freelist_head_page_id;
      freed_page_ids = i ∷ [];
    } in
    let m₀ : MetaPage = record m { next_page_id = m.next_page_id + 1 } in
    let (changed, kept) =
      update_meta_lem (λ m₁. record m₁ { freelist_head_page_id = head })
        (mark_freelist_page_dirty head new_page r) p' m₀ meta h₂ in
    (
      record m₀ { freelist_head_page_id = head },
      new_page,
      [],
      changed,
      ground (arith, n, is_next),
      ap (get head) kept ∙ get-put head head new_page r.freelist_cache ∙ if_true _ _ (==-refl head),
      refl,
    )

free_page-FreedLast :
    (i : ℕ) (p p' : Pager) (m : MetaPage)
    → p.meta ≡ some m
    → m.next_page_id ≢ 0
    → free_page i p ≡ ok p'
    → FreedLast i p'
unfolding free_page
free_page-FreedLast i p p' m e n h =
    let (m', em, h₁) = >>=-eq-ok (get_meta p) _ h in
    let same : m' ≡ m = ok-injective (sym em ∙ get_meta_lem p m e) in
    let counted : Pager = record p {
      stats = record p.stats { pages_freed = p.stats.pages_freed + 1 };
    } in
    elim (Bool-cases (m'.freelist_head_page_id == 0)) [
      | inl y ↦ free_into_new_head-FreedLast i counted p' m e n (rw y at h₁)
      | inr y ↦
          (let h₁' = rw y at h₁ in
            let ((page, r), er, h₂) =
              >>=-eq-ok (get_freelist_page m'.freelist_head_page_id counted) _ h₁' in
            let (keeps, cached) =
              get_freelist_page-keeps m'.freelist_head_page_id counted r page er in
            elim (Bool-cases (
              ltb (length page.freed_page_ids)
                (get_max_freed_ids_per_freelist_page r.page_size_bytes))) [
                  | inl room ↦
                      (let h₂' = rw room at h₂ in
                        let done = ok-injective h₂' in
                        let longer : FreelistPage = record page {
                          freed_page_ids = page.freed_page_ids ++ i ∷ [];
                        } in
                        let head = m'.freelist_head_page_id in
                        (
                          m',
                          longer,
                          page.freed_page_ids,
                          ap (λ s. s.meta) (sym done) ∙ keeps ∙ e ∙ ap some (sym same),
                          y,
                          ap (λ s. get head s.freelist_cache) (sym done)
                              ∙ get-put head head longer r.freelist_cache
                              ∙ if_true _ _ (==-refl head),
                          refl,
                        ))
                  | inr full ↦ free_into_new_head-FreedLast i r p' m (keeps ∙ e) n (rw full at h₂)
                ])
    ]

-- On a pager with a meta page whose next page is not page 0: if `free_page` succeeds, the next
-- `allocate_page` succeeds and gives out the page that was freed.
pub allocate_page-free_page :
    (i : ℕ) (p p' : Pager) (m : MetaPage)
    → p.meta ≡ some m
    → m.next_page_id ≢ 0
    → free_page i p ≡ ok p'
    → (q : Pager) × (allocate_page p' ≡ ok (i, q))
allocate_page-free_page i p p' m e n h =
    let (m', page, xs, a, b, c, d) = free_page-FreedLast i p p' m e n h in
    allocate_entry p' m' page xs i a b c d
