-- ===== src/Tree/Slots/Dictionary.antt =====
-- The leaf operations of src/bptreedb/tree.py as operations on a dictionary.
use bptreedb.Prelude.{
  ◌≡◌, refl, sym, ap, subst, ◌∙◌, true, none, some, List, [], ◌∷◌, arith, if◌then◌else◌, Bool-cases,
  inl, inr, Option-cases, ◌⊎◌,
}
use bptreedb.Struct.{Bytes}
use bptreedb.Keys.{lt_bytes, eq_bytes, lt_bytes_total, lt_bytes-ne, eq_bytes→eq, eq_bytes_sym}
use bptreedb.Entities.{LeafSlot}
use bptreedb.Codec.Sizes.{LeafSlot-Slot}
use bptreedb.Tree.Slots.{search_slots, insert_slots, delete_slots}
use bptreedb.Tree.Slots.Order.{Above, IsSorted, Above-trans}
use bptreedb.Tree.Slots.Lookup.{
  lookup, upsert, remove, removed, lookup-Above, search_slots-lookup, insert_slots-upsert,
  delete_slots-removed,
}

eq_bytes_cong : (a b j : Bytes) → eq_bytes a b ≡ true → eq_bytes a j ≡ eq_bytes b j
eq_bytes_cong a b j h = ap (λ x. eq_bytes x j) (eq_bytes→eq a b h)

lookup-upsert :
    (slots : List LeafSlot) (k j v : Bytes)
    → lookup (upsert slots k v) j ≡ (if eq_bytes k j then some v else lookup slots j)
unfolding lookup upsert
lookup-upsert [] k j v = refl
lookup-upsert (s ∷ slots) k j v = elim (Bool-cases (lt_bytes s.key k)) [
  | inl lt ↦
      rw (lt, lookup-upsert slots k j v)
        (ground (arith, lt_bytes-ne s.key k lt, eq_bytes_cong s.key j k, eq_bytes_sym j k))
  | inr ge ↦ elim (Bool-cases (eq_bytes s.key k)) [
    | inl eq ↦ rw (ge, eq, eq_bytes_cong s.key k j eq) (ground arith)
    | inr ne ↦ rw (ge, ne) refl
  ]
]

upsert-Above :
    (a k v : Bytes) (slots : List LeafSlot)
    → lt_bytes a k ≡ true
    → Above a slots
    → Above a (upsert slots k v)
unfolding upsert
upsert-Above a k v [] h above = (h, tt)
upsert-Above a k v (s ∷ slots) h above = elim (Bool-cases (lt_bytes s.key k)) [
  | inl lt ↦ rw lt (above.0, upsert-Above a k v slots h above.1)
  | inr ge ↦ elim (Bool-cases (eq_bytes s.key k)) [
    | inl eq ↦ rw (ge, eq) above
    | inr ne ↦ rw (ge, ne) (h, above)
  ]
]

upsert-IsSorted :
    (slots : List LeafSlot) (k v : Bytes) → IsSorted slots → IsSorted (upsert slots k v)
unfolding upsert
upsert-IsSorted [] k v h = (tt, tt)
upsert-IsSorted (s ∷ slots) k v h = elim (Bool-cases (lt_bytes s.key k)) [
  | inl lt ↦ rw lt (upsert-Above s.key k v slots lt h.0, upsert-IsSorted slots k v h.1)
  | inr ge ↦ elim (Bool-cases (eq_bytes s.key k)) [
    | inl eq ↦ rw (ge, eq) h
    | inr ne ↦
        let gt : lt_bytes k s.key ≡ true = ground (arith, lt_bytes_total s.key k) in
        rw (ge, ne) ((gt, Above-trans k s.key slots gt h.0), h)
  ]
]

lookup-remove :
    (slots : List LeafSlot) (k j : Bytes)
    → IsSorted slots
    → lookup (remove slots k) j ≡ (if eq_bytes k j then none else lookup slots j)
unfolding lookup remove
lookup-remove [] k j h = ground arith
lookup-remove (s ∷ slots) k j h = elim (Bool-cases (eq_bytes s.key k)) [
  | inl eq ↦
      let same = eq_bytes_cong s.key k j eq in
      elim (Bool-cases (eq_bytes k j)) [
        | inl here ↦
            let e : s.key ≡ j = eq_bytes→eq s.key k eq ∙ eq_bytes→eq k j here in
            rw (eq, here) (lookup-Above slots j (subst (λ x. Above x slots) e h.0))
        | inr other ↦ rw (eq, other, same, other) refl
      ]
  | inr ne ↦
      rw (ne, lookup-remove slots k j h.1)
        (ground (arith, eq_bytes_cong s.key j k, eq_bytes_sym j k))
]

remove-Above : (a k : Bytes) (slots : List LeafSlot) → Above a slots → Above a (remove slots k)
unfolding remove
remove-Above a k [] h = tt
remove-Above a k (s ∷ slots) h = elim (Bool-cases (eq_bytes s.key k)) [
  | inl eq ↦ rw eq h.1
  | inr ne ↦ rw ne (h.0, remove-Above a k slots h.1)
]

remove-IsSorted : (slots : List LeafSlot) (k : Bytes) → IsSorted slots → IsSorted (remove slots k)
unfolding remove
remove-IsSorted [] k h = tt
remove-IsSorted (s ∷ slots) k h = elim (Bool-cases (eq_bytes s.key k)) [
  | inl eq ↦ rw eq h.1
  | inr ne ↦ rw ne (remove-Above s.key k slots h.0, remove-IsSorted slots k h.1)
]

-- Inserting into a sorted leaf keeps it sorted; afterwards a search finds the new value under the
-- inserted key, and under every other key what it found before.
pub search-insert :
    (slots : List LeafSlot) (k v : Bytes)
    → IsSorted slots
    → IsSorted (insert_slots slots k v)
      × ((j : Bytes)
          → search_slots (insert_slots slots k v) j
            ≡ (if eq_bytes k j then some v else search_slots slots j))
search-insert slots k v h =
    let e = insert_slots-upsert slots k v h in
    let sorted = upsert-IsSorted slots k v h in
    rw e (
      sorted,
      λ j.
          search_slots-lookup _ j sorted
          ∙ lookup-upsert slots k j v
          ∙ ap (λ x. if eq_bytes k j then some v else x) (sym (search_slots-lookup slots j h)),
    )

-- Deleting from a sorted leaf fails exactly where a search finds nothing. Otherwise the slots
-- stay sorted, the key is gone, and a search for every other key finds what it found before.
pub search-delete :
    (slots : List LeafSlot) (k : Bytes)
    → IsSorted slots
    → ((search_slots slots k ≡ none) × (delete_slots slots k ≡ none))
      ⊎ ((v : Bytes) × (slots' : List LeafSlot) × (search_slots slots k ≡ some v)
          × (delete_slots slots k ≡ some slots')
          × IsSorted slots'
          × ((j : Bytes)
              → search_slots slots' j ≡ (if eq_bytes k j then none else search_slots slots j)))
unfolding removed
search-delete slots k h = elim (Option-cases (lookup slots k)) [
  | inl missing ↦ inl (
    search_slots-lookup slots k h ∙ missing,
    delete_slots-removed slots k h ∙ ap (removed slots k) missing,
  )
  | inr (v, found) ↦
      let sorted = remove-IsSorted slots k h in
      inr (
        v,
        remove slots k,
        search_slots-lookup slots k h ∙ found,
        delete_slots-removed slots k h ∙ ap (removed slots k) found,
        sorted,
        λ j.
            search_slots-lookup _ j sorted
            ∙ lookup-remove slots k j h
            ∙ ap (λ x. if eq_bytes k j then none else x) (sym (search_slots-lookup slots j h)),
      )
]
