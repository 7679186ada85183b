-- ===== src/Cache/Places.antt =====
-- The dict of cached pages in src/bptreedb/cache.py: uses, entries and removals.
use bptreedb.Prelude.{
  ℕ, ◌+◌, ◌≡◌, refl, sym, ap, ◌∙◌, false, none, some, List, [], ◌∷◌, ◌++◌, ◌==◌, length, arith,
  Bool-cases, inl, inr, eq_of_some, if_true, if_false, ==-refl, if◌then◌else◌, subst, length-append,
}
use bptreedb.Sequence.{get, pop, put, get-put, get-pop}
use bptreedb.Cache.{CachedPage, get_dirty_page_ids, move_to_end}

abbrev pub Cached : Type 0
Cached = List (ℕ × CachedPage)

-- No page ID stands twice.
abbrev pub IsUnique : Cached → Type 0
IsUnique [] = Unit {0}
IsUnique ((i, c) ∷ items) = (get i items ≡ none) × IsUnique items

put-absent :
    (j : ℕ) (c : CachedPage) (items : Cached)
    → get j items ≡ none
    → put j c items ≡ items ++ (j, c) ∷ []
unfolding get put
put-absent j c [] h = refl
put-absent j c ((k, d) ∷ items) h = elim (Bool-cases (k == j)) [
  | inl y ↦ absurd (let bad : some d ≡ none = rw y at h in cc)
  | inr n ↦ (let h' : get j items ≡ none = rw n at h in rw (n, put-absent j c items h'))
]

pop-absent : (j : ℕ) (items : Cached) → get j items ≡ none → pop j items ≡ items
unfolding get pop
pop-absent j [] h = refl
pop-absent j ((k, d) ∷ items) h = elim (Bool-cases (k == j)) [
  | inl y ↦ absurd (let bad : some d ≡ none = rw y at h in cc)
  | inr n ↦ (let h' : get j items ≡ none = rw n at h in rw (n, pop-absent j items h'))
]

pub put-IsUnique :
    (j : ℕ) (c : CachedPage) (items : Cached) → IsUnique items → IsUnique (put j c items)
unfolding put get
put-IsUnique j c [] u = (refl, tt)
put-IsUnique j c ((k, d) ∷ items) u = elim (Bool-cases (k == j)) [
  | inl y ↦ (let e : k ≡ j = ground (arith, y) in rw y (ap (λ i. get i items) (sym e) ∙ u.0, u.1))
  | inr n ↦
      (let apart : (j == k) ≡ false = ground (arith, n) in
        rw n (get-put j k c items ∙ if_false _ _ apart ∙ u.0, put-IsUnique j c items u.1))
]

pub pop-IsUnique : (j : ℕ) (items : Cached) → IsUnique items → IsUnique (pop j items)
unfolding pop
pop-IsUnique j [] u = tt
pop-IsUnique j ((k, d) ∷ items) u = elim (Bool-cases (k == j)) [
  | inl y ↦ rw y (pop-IsUnique j items u.1)
  | inr n ↦
      (let apart : (j == k) ≡ false = ground (arith, n) in
        rw n (get-pop j k items ∙ if_false _ _ apart ∙ u.0, pop-IsUnique j items u.1))
]

-- A page that is not in the pool comes to its end.
dirty_ids-snoc :
    (j : ℕ) (c : CachedPage) (items : Cached)
    → get_dirty_page_ids (items ++ (j, c) ∷ [])
      ≡ get_dirty_page_ids items ++ get_dirty_page_ids ((j, c) ∷ [])
unfolding get_dirty_page_ids
dirty_ids-snoc j c [] = refl
dirty_ids-snoc j c ((k, d) ∷ items) = rw (dirty_ids-snoc j c items) (ground arith)

pub dirty_ids-put :
    (j : ℕ) (c : CachedPage) (items : Cached)
    → get j items ≡ none
    → length (get_dirty_page_ids (put j c items))
      ≡ length (get_dirty_page_ids items) + (if c.is_dirty then 1 else 0)
unfolding get_dirty_page_ids
dirty_ids-put j c items h =
    ap (λ xs. length (get_dirty_page_ids xs)) (put-absent j c items h)
    ∙ ap length (dirty_ids-snoc j c items)
    ∙ length-append (get_dirty_page_ids items) (get_dirty_page_ids ((j, c) ∷ []))
    ∙ ap (λ n. length (get_dirty_page_ids items) + n) (ground arith)

dirty_ids-pop :
    (j : ℕ) (c : CachedPage) (items : Cached)
    → IsUnique items
    → get j items ≡ some c
    → length (get_dirty_page_ids (pop j items)) + (if c.is_dirty then 1 else 0)
      ≡ length (get_dirty_page_ids items)
unfolding get_dirty_page_ids get pop
dirty_ids-pop j c [] u h = cc
dirty_ids-pop j c ((k, d) ∷ items) u h = elim (Bool-cases (k == j)) [
  | inl y ↦
      (let same : d ≡ c = eq_of_some (rw y at h) in
        let e : k ≡ j = ground (arith, y) in
        let gone : pop j items ≡ items = pop-absent j items (ap (λ i. get i items) (sym e) ∙ u.0) in
        rw (y, gone, ← same) (ground arith))
  | inr n ↦
      (let h' : get j items ≡ some c = rw n at h in
        let ih = dirty_ids-pop j c items u.1 h' in rw n (ground (arith, ih)))
]

moved_get :
    (j i : ℕ) (c : CachedPage) (items : Cached)
    → get j items ≡ some c
    → (if j == i then some c else get i (pop j items)) ≡ get i items
moved_get j i c items h = elim (Bool-cases (j == i)) [
  | inl y ↦ (let e : j ≡ i = ground (arith, y) in if_true _ _ y ∙ sym h ∙ ap (λ k. get k items) e)
  | inr n ↦ if_false _ _ n ∙ get-pop j i items ∙ if_false _ _ n
]

-- A use of a page that is there.
pub record Used (j : ℕ) (c : CachedPage) (items : Cached) : Type 0 where
  pub is_unique : IsUnique (move_to_end j c items)
  pub same_count :
      length (get_dirty_page_ids (move_to_end j c items)) ≡ length (get_dirty_page_ids items)
  pub same_pages : (i : ℕ) → get i (move_to_end j c items) ≡ get i items

pub move_to_end-Used :
    (j : ℕ) (c : CachedPage) (items : Cached)
    → IsUnique items
    → get j items ≡ some c
    → Used j c items
move_to_end-Used j c items u h =
    let gone : get j (pop j items) ≡ none = get-pop j j items ∙ if_true _ _ (==-refl j) in
    let moved : put j c (pop j items) ≡ move_to_end j c items = put-absent j c (pop j items) gone in
    record {
      is_unique = subst IsUnique moved (put-IsUnique j c (pop j items) (pop-IsUnique j items u));
      same_count =
          ap (λ xs. length (get_dirty_page_ids xs)) (sym moved)
          ∙ dirty_ids-put j c (pop j items) gone
          ∙ dirty_ids-pop j c items u h;
      same_pages =
          λ i. ap (get i) (sym moved) ∙ get-put j i c (pop j items) ∙ moved_get j i c items h;
    }
