-- ===== src/Tree/Split.antt =====
-- The thresholds of src/bptreedb/tree.py, `_choose_split_point`, `_split_halves_are_balanced`, and
-- what `_split_page` does with the slots. `0.4 * page_size` is compared without rounding: the
-- double nearest to 0.4, times an integer below 2^50, lies on the same side of every integer.
pub mod Balance
pub mod Leaf
pub mod Internal
use bptreedb.Prelude.{
  ℕ, zero, suc, ◌+◌, ◌-◌, ◌*◌, ◌/◌, Bool, true, false, not, ◌&&◌, ◌||◌, Option, none, some, List,
  [], ◌∷◌, ltb, leb, if◌then◌else◌, length, take, drop, get_elem?, pos, ltb_ℤ,
}
use bptreedb.Exceptions.{
  Result, ok, err, index_error, db_record_too_large_error, ◌>>=◌, ◌>>◌, guard,
}
use bptreedb.Struct.{Bytes}
use bptreedb.Entities.{LeafSlot, LeafPage, InternalSlot, InternalPage}
use bptreedb.Codec.Sizes.{
  Slot, LeafSlot-Slot, InternalSlot-Slot, calculate_page_size, calculate_leaf_record_size,
  get_max_leaf_record_size,
}
use bptreedb.Tree.Bisect.{bisect}

unfoldable pub raise_if_record_too_large : ℕ → Bytes → Bytes → Result (Unit {0})
raise_if_record_too_large page_size_bytes key value =
    let limit = get_max_leaf_record_size page_size_bytes in
    let actual = calculate_leaf_record_size key value in
    if ltb_ℤ limit (pos actual) then err (db_record_too_large_error limit actual) else ok tt

module _ {A : Type 0} ⦃slot : Slot A⦄ where
  unfoldable pub is_page_overpopulated : ℕ → List A → Bool
  is_page_overpopulated page_size_bytes slots = ltb page_size_bytes (calculate_page_size slots)

  unfoldable pub is_page_underpopulated : ℕ → List A → Bool
  is_page_underpopulated page_size_bytes slots =
      ltb (5 * calculate_page_size slots) (2 * page_size_bytes)

  -- The first loop of `_split_page`, from a running sum on.
  unfoldable pub cumulative_sizes : ℕ → List A → List ℕ
  cumulative_sizes sum [] = []
  cumulative_sizes sum (s ∷ slots) =
      (sum + slot.slot_size s true) ∷ cumulative_sizes (sum + slot.slot_size s true) slots

-- `xs[-1]`
unfoldable pub last_of : List ℕ → Result ℕ
last_of [] = err index_error
last_of (x ∷ []) = ok x
last_of (x ∷ y ∷ xs) = last_of (y ∷ xs)

-- `byte_midpoint + offset` for the offsets k, -k, k + 1, ..., `n` pairs of them. A negative
-- candidate is 0 here; neither passes `1 <= candidate`.
unfoldable pub candidates_from : ℕ → ℕ → ℕ → List ℕ
candidates_from zero k midpoint = []
candidates_from (suc n) k midpoint =
    (midpoint + k) ∷ (midpoint - k) ∷ candidates_from n (k + 1) midpoint

unfoldable pub candidates : ℕ → ℕ → List ℕ
unfolding candidates_from
candidates slot_count midpoint = midpoint ∷ candidates_from (slot_count - 1) 1 midpoint

-- The first candidate that balances, else the fallback.
unfoldable pub first_balanced : (ℕ → Bool) → ℕ → List ℕ → ℕ → ℕ
first_balanced balanced slot_count [] fallback = fallback
first_balanced balanced slot_count (c ∷ cs) fallback =
    if leb 1 c && (ltb c slot_count && balanced c)
    then c
    else first_balanced balanced slot_count cs fallback

unfoldable pub byte_midpoint : List ℕ → ℕ → ℕ
byte_midpoint cumulative total_body = bisect (λ x. leb x (total_body / 2)) cumulative

module _ {A : Type 0} ⦃slot : Slot A⦄ where
  -- `_choose_split_point`, over the test of `_split_halves_are_balanced` for the page's type.
  unfoldable pub choose_split_point : (ℕ → Bool) → List A → Result ℕ
  choose_split_point balanced slots = do
    let cumulative = cumulative_sizes 0 slots
    total_body ← last_of cumulative
    let midpoint = byte_midpoint cumulative total_body
    let slot_count = length cumulative
    ok (first_balanced balanced slot_count (candidates slot_count midpoint) midpoint)

-- `_split_halves_are_balanced`: an internal page gives up the slot at the split.
unfoldable pub leaf_halves_are_balanced : ℕ → List LeafSlot → ℕ → Bool
leaf_halves_are_balanced page_size_bytes slots i = not (
    is_page_underpopulated page_size_bytes (take i slots)
    || is_page_underpopulated page_size_bytes (drop i slots))

unfoldable pub internal_halves_are_balanced : ℕ → List InternalSlot → ℕ → Bool
internal_halves_are_balanced page_size_bytes slots i = not (
    is_page_underpopulated page_size_bytes (take i slots)
    || is_page_underpopulated page_size_bytes (drop (i + 1) slots))

-- The first case of the `match` in `_split_page`: the page, its new sibling, and the promoted key.
unfoldable pub split_leaf_at : LeafPage → ℕ → ℕ → ℕ → Result (LeafPage × LeafPage × Bytes)
split_leaf_at page i new_sibling_page_id lsn = elim (drop i page.slots) [
  | [] ↦ err index_error
  | s ∷ rest ↦ ok (
    record page { right_sibling_page_id = new_sibling_page_id; slots = take i page.slots },
    record {
      last_modified_lsn = lsn;
      right_sibling_page_id = page.right_sibling_page_id;
      slots = s ∷ rest;
    },
    s.key,
  )
]

-- The second case: the slot at the split is promoted, and its child becomes the leftmost one of
-- the new sibling.
unfoldable pub split_internal_at :
    InternalPage → ℕ → ℕ → Result (InternalPage × InternalPage × Bytes)
split_internal_at page i lsn = elim (get_elem? page.slots i) [
  | none ↦ err index_error
  | some s ↦ ok (
    record page { slots = take i page.slots },
    record {
      last_modified_lsn = lsn;
      leftmost_child_page_id = s.child_page_id;
      slots = drop (i + 1) page.slots;
    },
    s.key,
  )
]

unfoldable pub split_leaf : ℕ → LeafPage → ℕ → ℕ → Result (LeafPage × LeafPage × Bytes)
split_leaf page_size_bytes page new_sibling_page_id lsn = do
  i ← choose_split_point (leaf_halves_are_balanced page_size_bytes page.slots) page.slots
  split_leaf_at page i new_sibling_page_id lsn

unfoldable pub split_internal : ℕ → InternalPage → ℕ → Result (InternalPage × InternalPage × Bytes)
split_internal page_size_bytes page lsn = do
  i ← choose_split_point (internal_halves_are_balanced page_size_bytes page.slots) page.slots
  split_internal_at page i lsn
