-- ===== src/Tree/Slots/Lookup.antt =====
-- The bisecting leaf operations of src/bptreedb/tree.py and walks from the left.
use bptreedb.Prelude.{
  ℕ, suc, ◌≡◌, refl, ap, ◌∙◌, Bool, true, false, not, Option, none, some, List, [], ◌∷◌, arith,
  if◌then◌else◌, Bool-cases, inl, inr, if_false,
}
use bptreedb.Struct.{Bytes}
use bptreedb.Keys.{
  lt_bytes, eq_bytes, lt_bytes_total, lt_bytes_asym, lt_bytes-ne, eq_bytes→eq, eq_bytes_sym,
}
use bptreedb.Entities.{LeafSlot}
use bptreedb.Codec.Sizes.{LeafSlot-Slot}
use bptreedb.Tree.Bisect.{front}
use bptreedb.Tree.Slots.{
  slot_at, search_slots, set_value, insert_at, insert_slots, delete_slots, insort, bisect_left,
  bisect_right, value_of, write_slot, pop_slot,
}
use bptreedb.Tree.Slots.Order.{Above, IsSorted, Above-trans, bisect_left-front, bisect_right-front}

-- The value of the first slot with this key.
unfoldable pub lookup : List LeafSlot → Bytes → Option Bytes
lookup [] key = none
lookup (s ∷ slots) key = if eq_bytes s.key key then some s.value else lookup slots key

-- Insertion or replacement by a walk from the left.
unfoldable pub upsert : List LeafSlot → Bytes → Bytes → List LeafSlot
upsert [] key value = record { key = key; value = value } ∷ []
upsert (s ∷ slots) key value =
    if lt_bytes s.key key
    then s ∷ upsert slots key value
    else if eq_bytes s.key key
    then record s { value = value } ∷ slots
    else record { key = key; value = value } ∷ s ∷ slots

-- Removal by a walk from the left.
unfoldable pub remove : List LeafSlot → Bytes → List LeafSlot
remove [] key = []
remove (s ∷ slots) key = if eq_bytes s.key key then slots else s ∷ remove slots key

abbrev less : Bytes → LeafSlot → Bool
less key s = lt_bytes s.key key

abbrev not_more : Bytes → LeafSlot → Bool
not_more key s = not (lt_bytes key s.key)

pub lookup-Above : (slots : List LeafSlot) (key : Bytes) → Above key slots → lookup slots key ≡ none
unfolding lookup
lookup-Above [] key h = refl
lookup-Above (s ∷ slots) key h =
    if_false _ _ (eq_bytes_sym s.key key ∙ lt_bytes-ne key s.key h.0) ∙ lookup-Above slots key h.1

-- Behind a slot that is not below `key` every key is above it.
Above-behind :
    (s : LeafSlot) (slots : List LeafSlot) (key : Bytes)
    → lt_bytes s.key key ≡ false
    → Above s.key slots
    → Above key slots
Above-behind s slots key ge above = elim (Bool-cases (lt_bytes key s.key)) [
  | inl lt ↦ Above-trans key s.key slots lt above
  | inr le ↦ rw (← eq_bytes→eq s.key key (lt_bytes_total s.key key ge le)) above
]

slot_at-lookup :
    (slots : List LeafSlot) (key : Bytes)
    → IsSorted slots
    → value_of (slot_at slots (front (less key) slots) key) ≡ lookup slots key
unfolding slot_at lookup front value_of
slot_at-lookup [] key h = refl
slot_at-lookup (s ∷ slots) key h = elim (Bool-cases (lt_bytes s.key key)) [
  | inl lt ↦ rw (lt, lt_bytes-ne s.key key lt) (slot_at-lookup slots key h.1)
  | inr ge ↦
      let none_behind = lookup-Above slots key (Above-behind s slots key ge h.0) in
      rw (ge, none_behind) (ground arith)
]

-- On sorted slots the bisecting search finds what a walk from the left finds.
pub search_slots-lookup :
    (slots : List LeafSlot) (key : Bytes)
    → IsSorted slots
    → search_slots slots key ≡ lookup slots key
unfolding search_slots
search_slots-lookup slots key h =
    ap (λ (i : ℕ). value_of (slot_at slots i key)) (bisect_left-front slots key h)
    ∙ slot_at-lookup slots key h

-- `write_slot` with the two places as arguments.
insert_by : List LeafSlot → Bytes → Bytes → ℕ → ℕ → Option LeafSlot → List LeafSlot
insert_by slots key value left right none =
    insert_at right (record { key = key; value = value }) slots
insert_by slots key value left right (some _) = set_value slots left value

insert_by-write_slot :
    (slots : List LeafSlot) (key value : Bytes) (o : Option LeafSlot)
    → write_slot slots key value o
      ≡ insert_by slots key value (bisect_left slots key) (bisect_right slots key) o
unfolding insert_by write_slot insort
insert_by-write_slot slots key value none = refl
insert_by-write_slot slots key value (some _) = refl

insert_by-suc :
    (s : LeafSlot) (slots : List LeafSlot) (key value : Bytes) (left right : ℕ)
    (o : Option LeafSlot)
    → insert_by (s ∷ slots) key value (suc left) (suc right) o
      ≡ s ∷ insert_by slots key value left right o
unfolding insert_by set_value
insert_by-suc s slots key value left right none = refl
insert_by-suc s slots key value left right (some _) = refl

insert_by-upsert :
    (slots : List LeafSlot) (key value : Bytes)
    → IsSorted slots
    → insert_by slots key value
        (front (less key) slots)
        (front (not_more key) slots)
        (slot_at slots (front (less key) slots) key)
      ≡ upsert slots key value
unfolding slot_at front upsert
insert_by-upsert [] key value h = unfold insert_by in refl
insert_by-upsert (s ∷ slots) key value h = elim (Bool-cases (lt_bytes s.key key)) [
  | inl lt ↦
      rw (lt, lt_bytes_asym s.key key lt)
        (insert_by-suc s slots key value _ _ _ ∙ ap (◌∷◌ s) (insert_by-upsert slots key value h.1))
  | inr ge ↦ elim (Bool-cases (eq_bytes s.key key)) [
    | inl eq ↦ rw (ge, eq) (unfold insert_by set_value in refl)
    | inr ne ↦
        let gt : lt_bytes key s.key ≡ true = ground (arith, lt_bytes_total s.key key) in
        rw (ge, ne, gt) (unfold insert_by in refl)
  ]
]

-- On sorted slots the bisecting insertion is the one by a walk.
pub insert_slots-upsert :
    (slots : List LeafSlot) (key value : Bytes)
    → IsSorted slots
    → insert_slots slots key value ≡ upsert slots key value
unfolding insert_slots
insert_slots-upsert slots key value h =
    insert_by-write_slot slots key value _
    ∙ ap (λ (i : ℕ). insert_by slots key value i (bisect_right slots key) (slot_at slots i key))
        (bisect_left-front slots key h)
    ∙ ap
        (λ (i : ℕ).
          insert_by slots key value (front (less key) slots) i
            (slot_at slots (front (less key) slots) key))
        (bisect_right-front slots key h)
    ∙ insert_by-upsert slots key value h

-- What a deletion gives back where the key is there.
unfoldable pub removed : List LeafSlot → Bytes → Option Bytes → Option (List LeafSlot)
removed slots key none = none
removed slots key (some _) = some (remove slots key)

pop_slot-suc :
    (s : LeafSlot) (slots : List LeafSlot) (i : ℕ) (o : Option LeafSlot) (v : Option Bytes)
    (key : Bytes)
    → eq_bytes s.key key ≡ false
    → pop_slot slots i o ≡ removed slots key v
    → pop_slot (s ∷ slots) (suc i) o ≡ removed (s ∷ slots) key v
unfolding pop_slot removed remove
pop_slot-suc s slots i none none key ne h = refl
pop_slot-suc s slots i none (some _) key ne h = cc
pop_slot-suc s slots i (some _) none key ne h = cc
pop_slot-suc s slots i (some _) (some _) key ne h = rw ne (ground arith)

pop_slot-removed :
    (slots : List LeafSlot) (key : Bytes)
    → IsSorted slots
    → pop_slot slots (front (less key) slots) (slot_at slots (front (less key) slots) key)
      ≡ removed slots key (lookup slots key)
unfolding slot_at front lookup
pop_slot-removed [] key h = unfold pop_slot removed in refl
pop_slot-removed (s ∷ slots) key h = elim (Bool-cases (lt_bytes s.key key)) [
  | inl lt ↦
      let ne = lt_bytes-ne s.key key lt in
      rw (lt, ne) (pop_slot-suc s slots _ _ _ key ne (pop_slot-removed slots key h.1))
  | inr ge ↦
      let none_behind = lookup-Above slots key (Above-behind s slots key ge h.0) in
      elim (Bool-cases (eq_bytes s.key key)) [
        | inl eq ↦ rw (ge, eq) (unfold pop_slot removed remove in rw eq)
        | inr ne ↦ rw (ge, ne, none_behind) (unfold pop_slot removed in refl)
      ]
]

-- On sorted slots a deletion says that the key is missing where it is, and removes its slot
-- where it is not.
pub delete_slots-removed :
    (slots : List LeafSlot) (key : Bytes)
    → IsSorted slots
    → delete_slots slots key ≡ removed slots key (lookup slots key)
unfolding delete_slots
delete_slots-removed slots key h =
    ap (λ (i : ℕ). pop_slot slots i (slot_at slots i key)) (bisect_left-front slots key h)
    ∙ pop_slot-removed slots key h
