-- ===== src/Cache/Room.antt =====
-- An eviction by src/bptreedb/cache.py from a pool with a clean page.
use bptreedb.Prelude.{
  ℕ, ◌+◌, ◌≤◌, ◌<◌, ◌≡◌, refl, sym, ap, ◌∙◌, true, false, not, none, some, [], ◌∷◌, ltb, ◌||◌, ◌==◌,
  ◌⊎◌, length, arith, Option-cases, Bool-cases, inl, inr, eq_of_some,
}
use bptreedb.Exceptions.{ok}
use bptreedb.Sequence.{get}
use bptreedb.Cache.{
  CachedPage, BufferPool, get_dirty_page_ids, dirty_count, without_oldest_clean,
  evict_oldest_clean_page_if_full,
}
use bptreedb.Cache.Places.{Cached, IsUnique}

-- The page `i` is in the pool as it was, or it was clean and is gone.
abbrev pub IsKept : Cached → Cached → ℕ → Type 0
IsKept items kept i =
    (get i kept ≡ get i items)
    ⊎ ((get i kept ≡ none) × ((c : CachedPage) × (get i items ≡ some c) × (c.is_dirty ≡ false)))

-- What is left of a pool when clean pages are gone.
pub record Trimmed (items kept : Cached) : Type 0 where
  pub is_unique : IsUnique kept
  pub same_dirty : get_dirty_page_ids kept ≡ get_dirty_page_ids items
  pub is_kept : (i : ℕ) → IsKept items kept i

pub IsKept-none :
    (items kept : Cached) (i : ℕ) → IsKept items kept i → get i items ≡ none → get i kept ≡ none
IsKept-none items kept i (inl same) e = same ∙ e
IsKept-none items kept i (inr (gone, _)) e = gone

IsKept-cons :
    (items kept : Cached) (i j : ℕ) (d : CachedPage)
    → IsKept items kept i
    → IsKept ((j, d) ∷ items) ((j, d) ∷ kept) i
unfolding get
IsKept-cons items kept i j d h = elim (Bool-cases (j == i)) [
  | inl y ↦ inl (rw y)
  | inr n ↦ elim h [
    | inl same ↦ inl (rw (n, same))
    | inr (gone, (c, at, clean)) ↦ inr (rw (n, gone), (c, rw (n, at), clean))
  ]
]

IsKept-gone :
    (items : Cached) (i j : ℕ) (d : CachedPage)
    → get j items ≡ none
    → d.is_dirty ≡ false
    → IsKept ((j, d) ∷ items) items i
unfolding get
IsKept-gone items i j d fresh clean = elim (Bool-cases (j == i)) [
  | inl y ↦
      (let e : j ≡ i = ground (arith, y) in
        inr (ap (λ k. get k items) (sym e) ∙ fresh, (d, rw y, clean)))
  | inr n ↦ inl (rw n)
]

without_oldest_clean-Trimmed :
    (items kept : Cached)
    → IsUnique items
    → without_oldest_clean items ≡ some kept
    → Trimmed items kept
unfolding without_oldest_clean get_dirty_page_ids
without_oldest_clean-Trimmed [] kept u e = cc
without_oldest_clean-Trimmed ((j, d) ∷ items) kept u e = elim (Bool-cases d.is_dirty) [
  | inl dirty ↦ elim (Option-cases (without_oldest_clean items)) [
    | inl n ↦ absurd (let e' : none ≡ some kept = rw (dirty, n) at e in cc)
    | inr (k, y) ↦
        (let e' : some ((j, d) ∷ k) ≡ some kept = rw (dirty, y) at e in
          let ih = without_oldest_clean-Trimmed items k u.1 y in
          rw (← eq_of_some e') (record {
            is_unique = (IsKept-none items k j (ih.is_kept j) u.0, ih.is_unique);
            same_dirty = rw (dirty, ih.same_dirty);
            is_kept = λ i. IsKept-cons items k i j d (ih.is_kept i);
          }))
  ]
  | inr clean ↦
      (let e' : some items ≡ some kept = rw clean at e in
        rw (← eq_of_some e') (record {
          is_unique = u.1;
          same_dirty = rw clean;
          is_kept = λ i. IsKept-gone items i j d u.0 clean;
        }))
]

-- A pool without a clean page has dirty pages only.
all_dirty :
    (items : Cached)
    → without_oldest_clean items ≡ none
    → length items ≤ length (get_dirty_page_ids items)
unfolding without_oldest_clean get_dirty_page_ids
all_dirty [] e = omega arith
all_dirty ((j, d) ∷ items) e = elim (Bool-cases d.is_dirty) [
  | inl dirty ↦ elim (Option-cases (without_oldest_clean items)) [
    | inl n ↦ rw dirty (omega (arith, all_dirty items n))
    | inr (k, y) ↦ absurd (let e' = rw (dirty, y) at e in cc)
  ]
  | inr clean ↦ absurd (let e' = rw clean at e in cc)
]

-- There are fewer dirty pages than the capacity, where evictions are enabled.
abbrev pub HasRoom : BufferPool → Type 0
HasRoom pool = pool.eviction_enabled ≡ true → dirty_count pool < pool.capacity_pages

pub record Evicted (pool pool' : BufferPool) : Type 0 where
  pub trimmed : Trimmed pool.cached pool'.cached
  pub same_capacity : pool'.capacity_pages ≡ pool.capacity_pages
  pub same_switch : pool'.eviction_enabled ≡ pool.eviction_enabled

-- An eviction from a pool with room does not raise.
pub evict-Evicted :
    (pool : BufferPool)
    → IsUnique pool.cached
    → HasRoom pool
    → (pool' : BufferPool) × (evict_oldest_clean_page_if_full pool ≡ ok pool') × Evicted pool pool'
unfolding evict_oldest_clean_page_if_full
evict-Evicted pool u room =
    elim (Bool-cases (not pool.eviction_enabled || ltb (length pool.cached) pool.capacity_pages)) [
      | inl stays ↦ (
        pool,
        rw stays,
        record {
          trimmed = record { is_unique = u; same_dirty = refl; is_kept = λ i. inl refl };
          same_capacity = refl;
          same_switch = refl;
        },
      )
      | inr full ↦ elim (Option-cases (without_oldest_clean pool.cached)) [
        | inl n ↦ absurd (ground (arith, all_dirty pool.cached n, room, full))
        | inr (kept, y) ↦ (
          record pool {
            cached = kept;
            stats = record pool.stats { evictions = pool.stats.evictions + 1 };
          },
          rw (full, y),
          record {
            trimmed = without_oldest_clean-Trimmed pool.cached kept u y;
            same_capacity = refl;
            same_switch = refl;
          },
        )
      ]
    ]
