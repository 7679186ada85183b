-- ===== src/Tree/Split/Leaf.antt =====
-- `insert` and `_split_page` of src/bptreedb/tree.py on a leaf that gets too large.
use bptreedb.Prelude.{
  ℕ, zero, suc, ◌+◌, ◌-◌, ◌*◌, ◌≤◌, ◌<◌, ◌≡◌, refl, sym, ap, ◌∙◌, true, false, List, [], ◌∷◌, ◌++◌,
  arith, length, take, drop, All, Bool-cases, inl, inr, take-append-drop,
}
use bptreedb.Exceptions.{ok, ◌>>=◌}
use bptreedb.Struct.{Bytes}
use bptreedb.Keys.{lt_bytes, eq_bytes, eq_bytes→eq}
use bptreedb.Entities.{LeafSlot, LeafPage}
use bptreedb.Codec.Sizes.{LeafSlot-Slot, calculate_page_size_lem, body_size}
use bptreedb.Tree.Slots.{insert_slots}
use bptreedb.Tree.Slots.Order.{IsSorted}
use bptreedb.Tree.Slots.Lookup.{upsert, insert_slots-upsert}
use bptreedb.Tree.Split.{
  raise_if_record_too_large, is_page_overpopulated, is_page_underpopulated,
  leaf_halves_are_balanced, split_leaf_at, split_leaf,
}
use bptreedb.Tree.Split.Balance.{Good, choose_split_point-leaf, body_size-take-drop}

-- Every slot, with its directory entry, takes at most a fifth of the space behind the header.
abbrev pub SlotsFit : ℕ → List LeafSlot → Type 0
SlotsFit p slots = All (λ s. 5 * LeafSlot-Slot.slot_size s true ≤ p - 32) slots

not_too_large :
    (p : ℕ) (key value : Bytes)
    → raise_if_record_too_large p key value ≡ ok tt
    → 5 * (16 + length key + length value) ≤ p - 32
unfolding raise_if_record_too_large
not_too_large p key value h = ground arith

upsert-SlotsFit :
    (p : ℕ) (slots : List LeafSlot) (key value : Bytes)
    → 5 * (16 + length key + length value) ≤ p - 32
    → SlotsFit p slots
    → SlotsFit p (upsert slots key value)
      × (body_size (upsert slots key value) ≤ body_size slots + (16 + length key + length value))
unfolding upsert body_size
upsert-SlotsFit p [] key value new fits = omega (arith, new)
upsert-SlotsFit p (s ∷ slots) key value new fits = elim (Bool-cases (lt_bytes s.key key)) [
  | inl lt ↦
      let (f, size) = upsert-SlotsFit p slots key value new fits.1 in
      rw lt ((fits.0, f), omega (arith, size))
  | inr ge ↦ elim (Bool-cases (eq_bytes s.key key)) [
    | inl eq ↦
        let same = ap length (eq_bytes→eq s.key key eq) in
        rw (ge, eq) ((omega (arith, same, new), fits.1), omega (arith, same))
    | inr ne ↦ rw (ge, ne) ((omega (arith, new), fits), omega arith)
  ]
]

-- The result of a split at a balanced place, from the sizes of the two halves.
module _ (p : ℕ) (slots : List LeafSlot) (i : ℕ)
    (good : Good (leaf_halves_are_balanced p slots) (length slots) i) where
  left_not_under : is_page_underpopulated p (take i slots) ≡ false
  unfolding leaf_halves_are_balanced
  left_not_under = ground (arith, good.2)

  right_not_under : is_page_underpopulated p (drop i slots) ≡ false
  unfolding leaf_halves_are_balanced
  right_not_under = ground (arith, good.2)

  not_over :
      (half other : List LeafSlot)
      → body_size half + body_size other ≡ body_size slots
      → is_page_underpopulated p other ≡ false
      → 5 * (32 + body_size slots) ≤ 6 * p - 32
      → 128 ≤ p
      → is_page_overpopulated p half ≡ false
  unfolding is_page_overpopulated is_page_underpopulated
  not_over half other e under total big =
      ground (arith, calculate_page_size_lem half, calculate_page_size_lem other, e)

drop-cons :
    (i : ℕ) (slots : List LeafSlot)
    → i < length slots
    → (s : LeafSlot) × (rest : List LeafSlot) × (drop i slots ≡ s ∷ rest)
drop-cons i [] h = elim h [ ]
drop-cons zero (s ∷ slots) h = (s, slots, refl)
drop-cons (suc i) (s ∷ slots) h = drop-cons i slots (omega arith)

-- What a split of a leaf promises.
pub record LeafSplit (p : ℕ) (page left right : LeafPage) (promoted : Bytes) (new_id lsn : ℕ)
    : Type 0 where
  pub kept : left.slots ++ right.slots ≡ page.slots
  pub left_healthy :
      (is_page_overpopulated p left.slots ≡ false) × (is_page_underpopulated p left.slots ≡ false)
  pub right_healthy :
      (is_page_overpopulated p right.slots ≡ false) × (is_page_underpopulated p right.slots ≡ false)
  pub first : LeafSlot
  pub others : List LeafSlot
  pub starts : right.slots ≡ first ∷ others
  pub separates : promoted ≡ first.key
  pub linked :
      (left.right_sibling_page_id ≡ new_id)
      × (right.right_sibling_page_id ≡ page.right_sibling_page_id)
  pub stamped : (left.last_modified_lsn ≡ page.last_modified_lsn) × (right.last_modified_lsn ≡ lsn)

-- A split at a balanced place of a page that is at most a fifth too large.
split_leaf_at-Good :
    (p : ℕ) (page : LeafPage) (i new_id lsn : ℕ)
    → Good (leaf_halves_are_balanced p page.slots) (length page.slots) i
    → 128 ≤ p
    → 5 * (32 + body_size page.slots) ≤ 6 * p - 32
    → (left : LeafPage) × (right : LeafPage) × (promoted : Bytes) × (split_leaf_at page i new_id lsn
        ≡ ok (left, right, promoted))
      × LeafSplit p page left right promoted new_id lsn
unfolding split_leaf_at
split_leaf_at-Good p page i new_id lsn good big total =
    let slots = page.slots in
    let (s, rest, e) = drop-cons i slots good.1 in
    let cut = body_size-take-drop i slots in
    let left_under = left_not_under p slots i good in
    let right_under = right_not_under p slots i good in
    (
      record page { right_sibling_page_id = new_id; slots = take i slots },
      record {
        last_modified_lsn = lsn;
        right_sibling_page_id = page.right_sibling_page_id;
        slots = s ∷ rest;
      },
      s.key,
      rw (e, split_leaf_at),
      record {
        kept = ap (λ x. take i slots ++ x) (sym e) ∙ take-append-drop i slots;
        left_healthy = (
          not_over p slots i good (take i slots) (drop i slots) cut right_under total big,
          left_under,
        );
        right_healthy = rw (← e) (
          not_over p slots i good (drop i slots) (take i slots) (omega (arith, cut)) left_under
              total big,
          right_under,
        );
        first = s;
        others = rest;
        starts = refl;
        separates = refl;
        linked = (refl, refl);
        stamped = (refl, refl);
      },
    )

overpopulated→lt :
    (p : ℕ) (slots : List LeafSlot)
    → is_page_overpopulated p slots ≡ true
    → p < 32 + body_size slots
unfolding is_page_overpopulated
overpopulated→lt p slots h = ground (arith, calculate_page_size_lem slots)

not_overpopulated→le :
    (p : ℕ) (slots : List LeafSlot)
    → is_page_overpopulated p slots ≡ false
    → 32 + body_size slots ≤ p
unfolding is_page_overpopulated
not_overpopulated→le p slots h = ground (arith, calculate_page_size_lem slots)

-- On pages of at least 128 bytes: a sorted leaf that is not overfull, and whose slots each take at
-- most a fifth of the space behind the header, takes a record that is not too large. If it is
-- overfull then, it is split: the two halves hold the same slots in the same order, neither is
-- overfull or underpopulated, the promoted key is the first one on the right, and the chain of
-- siblings goes through the new page.
pub insert-split :
    (p : ℕ) (page : LeafPage) (key value : Bytes) (new_id lsn : ℕ)
    → 128 ≤ p
    → IsSorted page.slots
    → SlotsFit p page.slots
    → is_page_overpopulated p page.slots ≡ false
    → raise_if_record_too_large p key value ≡ ok tt
    → is_page_overpopulated p (insert_slots page.slots key value) ≡ true
    → (left : LeafPage) × (right : LeafPage) × (promoted : Bytes) × (split_leaf p
          (record page { slots = insert_slots page.slots key value })
          new_id
          lsn
        ≡ ok (left, right, promoted))
      × LeafSplit p
          (record page { slots = insert_slots page.slots key value })
          left
          right
          promoted
          new_id
          lsn
unfolding split_leaf
insert-split p page key value new_id lsn big sorted fits before record_fits over =
    let slots = insert_slots page.slots key value in
    let same = insert_slots-upsert page.slots key value sorted in
    let new = not_too_large p key value record_fits in
    let (fits', grown) = upsert-SlotsFit p page.slots key value new fits in
    let fits'' : SlotsFit p slots = rw same fits' in
    let grown' : body_size slots ≤ body_size page.slots + (16 + length key + length value) =
      rw same grown in
    let before' = not_overpopulated→le p page.slots before in
    let (i, chosen, good) =
      choose_split_point-leaf p slots (omega arith) fits'' (overpopulated→lt p slots over) in
    let (left, right, promoted, done, split) =
      split_leaf_at-Good p (record page { slots = slots }) i new_id lsn good big
        (omega (arith, grown', before', new)) in
    (
      left,
      right,
      promoted,
      ap (λ m. m >>= λ j. split_leaf_at (record page { slots = slots }) j new_id lsn) chosen ∙ done,
      split,
    )
