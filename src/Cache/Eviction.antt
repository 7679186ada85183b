-- ===== src/Cache/Eviction.antt =====
-- What `get` and `insert` of src/bptreedb/cache.py evict.
use bptreedb.Prelude.{
  ℕ, ◌≤◌, ◌≡◌, refl, sym, ap, ◌∙◌, true, false, not, none, some, List, [], ◌∷◌, ◌++◌, ltb, ◌||◌,
  ◌==◌, length, All, arith, Option-cases, Bool-cases, inl, inr, eq_of_some, if_true, if_false,
  ==-refl,
}
use bptreedb.Exceptions.{ok, err, db_buffer_pool_overflow_error, >>=-eq-ok, ok-injective}
use bptreedb.Sequence.{get, pop, put, get-put, get-pop}
use bptreedb.Entities.{TreePage}
use bptreedb.Codec.Page.{decode_page}
use bptreedb.Pager.{Pager, read_page}
use bptreedb.Cache.{
  CachedPage, BufferPool, without_oldest_clean, evict_oldest_clean_page_if_full, move_to_end,
  as_tree, hit, miss, get_page, insert, stamp,
}

-- The dirty page `i` is in the pool.
abbrev pub HoldsDirty : ℕ → CachedPage → List (ℕ × CachedPage) → Type 0
HoldsDirty i c items = (get i items ≡ some c) × (c.is_dirty ≡ true)

without_oldest_clean-HoldsDirty :
    (i : ℕ) (c : CachedPage) (items kept : List (ℕ × CachedPage))
    → HoldsDirty i c items
    → without_oldest_clean items ≡ some kept
    → HoldsDirty i c kept
unfolding without_oldest_clean get
without_oldest_clean-HoldsDirty i c [] kept h e = cc
without_oldest_clean-HoldsDirty i c ((j, d) ∷ items) kept h e = elim (Bool-cases d.is_dirty) [
  | inl dirty ↦ elim (Option-cases (without_oldest_clean items)) [
    | inl n ↦ absurd (let e' : none ≡ some kept = rw (dirty, n) at e in cc)
    | inr (k, y) ↦
        (let e' : some ((j, d) ∷ k) ≡ some kept = rw (dirty, y) at e in
          let ih = without_oldest_clean-HoldsDirty i c items k in
          rw (← eq_of_some e') (ground (arith, ih, y, h.0), h.1))
  ]
  | inr clean ↦
      (let e' : some items ≡ some kept = rw clean at e in
        rw (← eq_of_some e') (ground (arith, clean, h.0, h.1), h.1))
]

evict-HoldsDirty :
    (i : ℕ) (c : CachedPage) (pool pool' : BufferPool)
    → HoldsDirty i c pool.cached
    → evict_oldest_clean_page_if_full pool ≡ ok pool'
    → HoldsDirty i c pool'.cached
unfolding evict_oldest_clean_page_if_full
evict-HoldsDirty i c pool pool' h e =
    elim (Bool-cases (not pool.eviction_enabled || ltb (length pool.cached) pool.capacity_pages)) [
      | inl stays ↦ (let e' : ok pool ≡ ok pool' = rw stays at e in rw (← ok-injective e') h)
      | inr full ↦ elim (Option-cases (without_oldest_clean pool.cached)) [
        | inl n ↦ absurd (let e' = rw (full, n) at e in cc)
        | inr (kept, y) ↦
            (let e' = rw (full, y) at e in
              let same : kept ≡ pool'.cached =
                ap (λ (p : BufferPool). p.cached) (ok-injective e') in
              rw (← same) (without_oldest_clean-HoldsDirty i c pool.cached kept h y))
      ]
    ]

get-snoc :
    (i j : ℕ) (c d : CachedPage) (items : List (ℕ × CachedPage))
    → get i items ≡ some c
    → get i (items ++ (j, d) ∷ []) ≡ some c
unfolding get
get-snoc i j c d [] h = cc
get-snoc i j c d ((k, e) ∷ items) h = ground (arith, get-snoc i j c d items, h)

get-last :
    (j : ℕ) (d : CachedPage) (items : List (ℕ × CachedPage))
    → get j items ≡ none
    → get j (items ++ (j, d) ∷ []) ≡ some d
unfolding get
get-last j d [] h = ground arith
get-last j d ((k, e) ∷ items) h = ground (arith, get-last j d items, h)

-- A use of a page changes its place only.
get-move_to_end :
    (i j : ℕ) (c d : CachedPage) (items : List (ℕ × CachedPage))
    → get i items ≡ some c
    → get j items ≡ some d
    → get i (move_to_end j d items) ≡ some c
get-move_to_end i j c d items h g = elim (Bool-cases (j == i)) [
  | inl y ↦
      (let e : j ≡ i = ground (arith, y) in
        let gone : get j (pop j items) ≡ none = get-pop j j items ∙ if_true _ _ (==-refl j) in
        let same : some d ≡ some c = sym g ∙ ap (λ k. get k items) e ∙ h in
        ap (λ k. get k (move_to_end j d items)) (sym e) ∙ get-last j d (pop j items) gone ∙ same)
  | inr n ↦ get-snoc i j c d (pop j items) (get-pop j i items ∙ if_false _ _ n ∙ h)
]

get-put_new :
    (i j : ℕ) (c d : CachedPage) (items kept : List (ℕ × CachedPage))
    → get j items ≡ none
    → get i items ≡ some c
    → get i kept ≡ some c
    → get i (put j d kept) ≡ some c
get-put_new i j c d items kept g h h' = elim (Bool-cases (j == i)) [
  | inl y ↦
      (let e : j ≡ i = ground (arith, y) in
        let bad : none ≡ some c = sym g ∙ ap (λ k. get k items) e ∙ h in absurd cc)
  | inr n ↦ get-put j i d kept ∙ if_false _ _ n ∙ h'
]

miss-HoldsDirty :
    (i j : ℕ) (c : CachedPage) (pool pool' : BufferPool) (pager pager' : Pager) (page : TreePage)
    → get j pool.cached ≡ none
    → HoldsDirty i c pool.cached
    → miss j pool pager ≡ ok (page, pool', pager')
    → HoldsDirty i c pool'.cached
unfolding miss
miss-HoldsDirty i j c pool pool' pager pager' page g h e =
    let (p, e₁, e₂) = >>=-eq-ok (evict_oldest_clean_page_if_full pool) _ e in
    let (r, e₃, e₄) = >>=-eq-ok (read_page j pager) _ e₂ in
    let (decoded, e₅, e₆) = >>=-eq-ok (decode_page r.0) _ e₄ in
    let (t, e₇, e₈) = >>=-eq-ok (as_tree decoded) _ e₆ in
    let new : CachedPage = record { page = t; is_dirty = false } in
    let same : put j new p.cached ≡ pool'.cached = ap (λ s. s.1.cached) (ok-injective e₈) in
    let (kept, dirty) = evict-HoldsDirty i c pool p h e₁ in
    (ap (get i) (sym same) ∙ get-put_new i j c new pool.cached p.cached g h.0 kept, dirty)

-- A call of `get` that succeeds, whether on a hit or on a miss that evicts a page, keeps every page
-- that is marked dirty in the pool, unchanged and dirty. A page that was changed in place and is
-- not yet marked counts as clean: of it, nothing is said.
pub get_page-HoldsDirty :
    (i j : ℕ) (c : CachedPage) (pool pool' : BufferPool) (pager pager' : Pager) (page : TreePage)
    → HoldsDirty i c pool.cached
    → get_page j pool pager ≡ ok (page, pool', pager')
    → HoldsDirty i c pool'.cached
unfolding get_page
get_page-HoldsDirty i j c pool pool' pager pager' page h e =
    elim (Option-cases (get j pool.cached)) [
      | inl g ↦ miss-HoldsDirty i j c pool pool' pager pager' page g h (rw (get_page, g) at e)
      | inr (d, g) ↦
          (let e' : ok (d.page, hit j d pool, pager) ≡ ok (page, pool', pager') =
              rw (get_page, g) at e in
            let same : move_to_end j d pool.cached ≡ pool'.cached =
              ap (λ s. s.1.cached) (ok-injective e') in
            (ap (get i) (sym same) ∙ get-move_to_end i j c d pool.cached h.0 g, h.1))
    ]

-- A call of `insert` that succeeds keeps every dirty page in the pool, and dirty, and adds the new
-- page as a dirty one with the given LSN.
pub insert-HoldsDirty :
    (i j : ℕ) (c : CachedPage) (page : TreePage) (lsn : ℕ) (pool pool' : BufferPool)
    → HoldsDirty i c pool.cached
    → insert j page lsn pool ≡ ok pool'
    → HoldsDirty i c pool'.cached
      × HoldsDirty j (record { page = stamp (λ _. lsn) page; is_dirty = true }) pool'.cached
unfolding insert
insert-HoldsDirty i j c page lsn pool pool' h e = elim (Option-cases (get j pool.cached)) [
  | inl g ↦
      (let e' = rw (insert, g) at e in
        let (p, e₁, e₂) = >>=-eq-ok (evict_oldest_clean_page_if_full pool) _ e' in
        let new : CachedPage = record { page = stamp (λ _. lsn) page; is_dirty = true } in
        let same : put j new p.cached ≡ pool'.cached =
          ap (λ (q : BufferPool). q.cached) (ok-injective e₂) in
        let (kept, dirty) = evict-HoldsDirty i c pool p h e₁ in
        (
          (ap (get i) (sym same) ∙ get-put_new i j c new pool.cached p.cached g h.0 kept, dirty),
          (ap (get j) (sym same) ∙ get-put j j new p.cached ∙ if_true _ _ (==-refl j), refl),
        ))
  | inr (d, g) ↦ absurd (let e' = rw (insert, g) at e in cc)
]

no_clean :
    (items : List (ℕ × CachedPage))
    → All (λ e. e.1.is_dirty ≡ true) items
    → without_oldest_clean items ≡ none
unfolding without_oldest_clean
no_clean [] h = refl
no_clean ((j, d) ∷ items) h = rw (h.0, no_clean items h.1)

evict_overflow :
    (pool : BufferPool)
    → pool.eviction_enabled ≡ true
    → pool.capacity_pages ≤ length pool.cached
    → All (λ e. e.1.is_dirty ≡ true) pool.cached
    → evict_oldest_clean_page_if_full pool ≡ err db_buffer_pool_overflow_error
unfolding evict_oldest_clean_page_if_full
evict_overflow pool on full dirty =
    let small : ltb (length pool.cached) pool.capacity_pages ≡ false = ground (arith, full) in
    rw (on, small, no_clean pool.cached dirty)

-- On a full pool of dirty pages, with evictions enabled, a `get` of a page that is not in the pool
-- and an `insert` of one both raise `DBBufferPoolOverflowError`.
pub full_overflow :
    (j : ℕ) (page : TreePage) (lsn : ℕ) (pool : BufferPool) (pager : Pager)
    → pool.eviction_enabled ≡ true
    → pool.capacity_pages ≤ length pool.cached
    → All (λ e. e.1.is_dirty ≡ true) pool.cached
    → get j pool.cached ≡ none
    → (get_page j pool pager ≡ err db_buffer_pool_overflow_error)
      × (insert j page lsn pool ≡ err db_buffer_pool_overflow_error)
unfolding get_page miss insert
full_overflow j page lsn pool pager on full dirty g =
    let raises = evict_overflow pool on full dirty in
    (rw (get_page, g, miss, raises), rw (insert, g, raises))
