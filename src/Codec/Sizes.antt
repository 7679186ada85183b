-- ===== src/Codec/Sizes.antt =====
-- The size functions of src/bptreedb/codec.py. `Slot` is what a page needs to know of its slots:
-- their key (`_KEY_GETTER` of tree.py) and their size.
use bptreedb.Prelude.{
  ℕ, ◌+◌, ◌-◌, ◌*◌, ◌/◌, ◌≡◌, Bool, true, List, [], ◌∷◌, ◌++◌, arith, if◌then◌else◌, length, ℤ, pos,
  ◌-ℤ◌, ◌/ℤ◌,
}
use bptreedb.Struct.{Bytes, size}
use bptreedb.Entities.{LeafSlot, InternalSlot}
use bptreedb.Codec.{length_field, page_id_field, page_header, slot_entry}

pub record Slot (A : Type 0) : Type 0 where
  pub key_of : A → Bytes
  pub slot_size : A → Bool → ℕ

-- The cases of `calculate_slot_size(slot, include_meta)`.
abbrev pub leaf_slot_size : LeafSlot → Bool → ℕ
leaf_slot_size s include_meta =
    (if include_meta then size slot_entry else 0)
    + size length_field * 2
    + length s.key
    + length s.value

abbrev pub internal_slot_size : InternalSlot → Bool → ℕ
internal_slot_size s include_meta =
    (if include_meta then size slot_entry else 0)
    + size length_field
    + length s.key
    + size page_id_field

instance abbrev pub LeafSlot-Slot : Slot LeafSlot
LeafSlot-Slot = record { key_of = λ s. s.key; slot_size = leaf_slot_size }

instance abbrev pub InternalSlot-Slot : Slot InternalSlot
InternalSlot-Slot = record { key_of = λ s. s.key; slot_size = internal_slot_size }

module _ {A : Type 0} ⦃slot : Slot A⦄ where
  size_loop : ℕ → List A → ℕ
  size_loop acc [] = acc
  size_loop acc (s ∷ slots) = size_loop (acc + slot.slot_size s true) slots

  unfoldable pub calculate_page_size : List A → ℕ
  unfolding size_loop
  calculate_page_size slots = size_loop (size page_header) slots

  -- The slots without the page header.
  unfoldable pub body_size : List A → ℕ
  body_size [] = 0
  body_size (s ∷ slots) = slot.slot_size s true + body_size slots

  size_loop-body_size : (acc : ℕ) (slots : List A) → size_loop acc slots ≡ acc + body_size slots
  unfolding size_loop body_size
  size_loop-body_size acc [] = omega arith
  size_loop-body_size acc (s ∷ slots) =
      omega (arith, size_loop-body_size (acc + slot.slot_size s true) slots)

  pub calculate_page_size_lem : (slots : List A) → calculate_page_size slots ≡ 32 + body_size slots
  unfolding calculate_page_size
  calculate_page_size_lem slots = size_loop-body_size 32 slots

  pub body_size-append : (xs ys : List A) → body_size (xs ++ ys) ≡ body_size xs + body_size ys
  unfolding body_size
  body_size-append [] ys = omega arith
  body_size-append (x ∷ xs) ys = omega (arith, body_size-append xs ys)

abbrev pub calculate_leaf_record_size : Bytes → Bytes → ℕ
calculate_leaf_record_size key value = size length_field * 2 + length key + length value

-- Negative for a page of fewer than 72 bytes.
abbrev pub get_max_leaf_record_size : ℕ → ℤ
get_max_leaf_record_size page_size_bytes =
    (pos page_size_bytes -ℤ pos (size page_header)) /ℤ 5 -ℤ pos (size slot_entry)

abbrev pub get_max_freed_ids_per_freelist_page : ℕ → ℕ
get_max_freed_ids_per_freelist_page page_size_bytes =
    (page_size_bytes - size page_header) / size page_id_field
