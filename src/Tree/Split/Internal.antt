-- ===== src/Tree/Split/Internal.antt =====
-- `_split_page` of src/bptreedb/tree.py on an internal page.
use bptreedb.Prelude.{
  ℕ, zero, suc, ◌+◌, ◌*◌, ◌/◌, ◌≤◌, ◌<◌, ◌≡◌, ◌≢◌, refl, ap, ◌∙◌, Bool, true, false, some, List, [],
  ◌∷◌, ◌++◌, arith, leb, length, take, drop, get_elem?, All,
}
use bptreedb.Exceptions.{ok, ◌>>=◌}
use bptreedb.Struct.{Bytes}
use bptreedb.Entities.{InternalSlot, InternalPage}
use bptreedb.Codec.Sizes.{InternalSlot-Slot, calculate_page_size_lem, body_size}
use bptreedb.Tree.Bisect.{front, bisect-front, front-le}
use bptreedb.Tree.Split.{
  is_page_underpopulated, is_page_overpopulated, cumulative_sizes, candidates, first_balanced,
  byte_midpoint, choose_split_point, internal_halves_are_balanced, split_internal_at,
  split_internal,
}
use bptreedb.Tree.Split.Balance.{
  body_size-take-drop, Midpoint, front-Midpoint, length-cumulative_sizes, last_of-cumulative_sizes,
  cumulative_sizes-Falls,
}

first_balanced-lt :
    (balanced : ℕ → Bool) (n : ℕ) (cs : List ℕ) (fallback : ℕ)
    → fallback < n
    → first_balanced balanced n cs fallback < n
unfolding first_balanced
first_balanced-lt balanced n [] fallback h = h
first_balanced-lt balanced n (c ∷ cs) fallback h =
    ground (arith, first_balanced-lt balanced n cs fallback h)

-- Some split point within the page is always found.
choose_split_point-lt :
    (balanced : ℕ → Bool) (s : InternalSlot) (slots : List InternalSlot)
    → (i : ℕ) × (choose_split_point balanced (s ∷ slots) ≡ ok i) × (i < length (s ∷ slots))
unfolding choose_split_point byte_midpoint
choose_split_point-lt balanced s slots =
    let all = s ∷ slots in
    let h = body_size all / 2 in
    let m = front (λ x. leb x h) (cumulative_sizes 0 all) in
    let len = length-cumulative_sizes 0 all in
    let mid = front-Midpoint h 0 all (omega arith) in
    let zero_add : 0 + body_size all ≡ body_size all = omega arith in
    let inside : m < length all =
      inside_of m mid (omega (arith, len, front-le (λ x. leb x h) (cumulative_sizes 0 all))) in
    (
      first_balanced balanced (length all) (candidates (length all) m) m,
      rw
          (
            last_of-cumulative_sizes 0 s slots,
            zero_add,
            bisect-front (λ x. leb x h) _ (cumulative_sizes-Falls h 0 all),
            len,
          )
          refl,
      first_balanced-lt balanced (length all) (candidates (length all) m) m inside,
    )
  where
    take_all : (xs : List InternalSlot) → take (length xs) xs ≡ xs
    take_all [] = refl
    take_all (x ∷ xs) = ap (◌∷◌ x) (take_all xs)

    not_end :
        (m : ℕ) → Midpoint (body_size (s ∷ slots) / 2) 0 (s ∷ slots) m → m ≢ length (s ∷ slots)
    not_end m mid e = absurd (
        unfold body_size in
        omega (
          arith,
          mid.below,
          ap (λ (k : ℕ). body_size (take k (s ∷ slots))) e,
          ap body_size (take_all (s ∷ slots)),
        ))

    inside_of :
        (m : ℕ)
        → Midpoint (body_size (s ∷ slots) / 2) 0 (s ∷ slots) m
        → m ≤ length (s ∷ slots)
        → m < length (s ∷ slots)
    inside_of m mid le = omega (arith, not_end m mid)

-- The left page, the promoted key with the right page's first child, and the right page.
abbrev pub rejoined : InternalPage → Bytes → InternalPage → List InternalSlot
rejoined left promoted right =
    left.slots
    ++ record { key = promoted; child_page_id = right.leftmost_child_page_id } ∷ right.slots

split_at :
    (slots : List InternalSlot) (i : ℕ)
    → i < length slots
    → (s : InternalSlot) × (get_elem? slots i ≡ some s)
      × (take i slots ++ s ∷ drop (i + 1) slots ≡ slots)
split_at [] i h = elim h [ ]
split_at (s ∷ slots) zero h = (s, refl, refl)
split_at (s ∷ slots) (suc i) h =
    let (t, e, same) = split_at slots i (omega arith) in
    let next : suc i + 1 ≡ suc (i + 1) = omega arith in (t, e, rw next (ap (◌∷◌ s) same))

-- An internal page with a slot is always split, balanced or not: all children and separators are
-- there afterwards, in order, on the left page, in the promoted slot and on the right page; the
-- left page keeps its leftmost child, and the right page has the LSN of the change.
pub split_internal_lem :
    (p : ℕ) (page : InternalPage) (lsn : ℕ)
    → 0 < length page.slots
    → (left : InternalPage) × (right : InternalPage) × (promoted : Bytes) × (split_internal p page
          lsn
        ≡ ok (left, right, promoted))
      × (rejoined left promoted right ≡ page.slots)
      × (left.leftmost_child_page_id ≡ page.leftmost_child_page_id)
      × (right.last_modified_lsn ≡ lsn)
unfolding split_internal split_internal_at
split_internal_lem p page lsn h =
    let (i, chosen, lt) = chosen_of page.slots h in
    let (s, found, same) = split_at page.slots i lt in
    (
      record page { slots = take i page.slots },
      record {
        last_modified_lsn = lsn;
        leftmost_child_page_id = s.child_page_id;
        slots = drop (i + 1) page.slots;
      },
      s.key,
      ap (λ m. m >>= λ j. split_internal_at page j lsn) chosen ∙ at i s found,
      same,
      refl,
      refl,
    )
  where
    chosen_of :
        (slots : List InternalSlot)
        → 0 < length slots
        → (i : ℕ) × (choose_split_point (internal_halves_are_balanced p page.slots) slots ≡ ok i)
          × (i < length slots)
    chosen_of [] h = elim h [ ]
    chosen_of (s ∷ slots) h =
        choose_split_point-lt (internal_halves_are_balanced p page.slots) s slots

    at :
        (i : ℕ) (s : InternalSlot)
        → get_elem? page.slots i ≡ some s
        → split_internal_at page i lsn
          ≡ ok (
            record page { slots = take i page.slots },
            record {
              last_modified_lsn = lsn;
              leftmost_child_page_id = s.child_page_id;
              slots = drop (i + 1) page.slots;
            },
            s.key,
          )
    at i s e = rw (e, split_internal_at)

underpopulated_two :
    (p n : ℕ) (slots : List InternalSlot)
    → body_size slots ≤ 2 * (20 + n)
    → 5 * (32 + 2 * (20 + n)) < 2 * p
    → is_page_underpopulated p slots ≡ true
unfolding is_page_underpopulated
underpopulated_two p n slots h small = ground (arith, calculate_page_size_lem slots)

-- Six separators of one length that overfill a page, where two of them leave a page
-- underpopulated: every split of them leaves an underpopulated page.
pub no_balanced_split :
    (p n : ℕ) (a b c d e f : InternalSlot)
    → All (λ (s : InternalSlot). length s.key ≡ n) (a ∷ b ∷ c ∷ d ∷ e ∷ f ∷ [])
    → 5 * (32 + 2 * (20 + n)) < 2 * p
    → p < 32 + 6 * (20 + n)
    → (is_page_overpopulated p (a ∷ b ∷ c ∷ d ∷ e ∷ f ∷ []) ≡ true)
      × ((i : ℕ) → internal_halves_are_balanced p (a ∷ b ∷ c ∷ d ∷ e ∷ f ∷ []) i ≡ false)
unfolding is_page_overpopulated internal_halves_are_balanced body_size
no_balanced_split p n a b c d e f k small large =
    (ground (arith, calculate_page_size_lem (a ∷ b ∷ c ∷ d ∷ e ∷ f ∷ [])), unbalanced)
  where
    unbalanced : (i : ℕ) → internal_halves_are_balanced p (a ∷ b ∷ c ∷ d ∷ e ∷ f ∷ []) i ≡ false
    unbalanced zero = rw (underpopulated_two p n [] (omega arith) small)
    unbalanced (suc zero) = rw (underpopulated_two p n (a ∷ []) (omega (arith, k.0)) small)
    unbalanced (suc (suc zero)) =
        rw (underpopulated_two p n (a ∷ b ∷ []) (omega (arith, k.0, k.1.0)) small)
    unbalanced (suc (suc (suc i))) =
        let next : suc (suc (suc i)) + 1 ≡ suc (suc (suc (suc i))) = omega arith in
        let few : body_size (drop i (e ∷ f ∷ [])) ≤ 2 * (20 + n) =
          omega (arith, body_size-take-drop i (e ∷ f ∷ []), k.1.1.1.1.0, k.1.1.1.1.1.0) in
        rw (next, underpopulated_two p n (drop i (e ∷ f ∷ [])) few small) (ground arith)
