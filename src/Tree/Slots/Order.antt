-- ===== src/Tree/Slots/Order.antt =====
-- Sorted slots, and the two bisections of src/bptreedb/tree.py on them.
use bptreedb.Prelude.{◌≡◌, true, false, not, List, [], ◌∷◌, arith, All, Bool-cases, inl, inr}
use bptreedb.Struct.{Bytes}
use bptreedb.Keys.{lt_bytes, lt_bytes_trans, lt_bytes_total, lt_bytes_asym, eq_bytes→eq}
use bptreedb.Codec.Sizes.{Slot}
use bptreedb.Tree.Bisect.{front, Falls, bisect-front}
use bptreedb.Tree.Slots.{bisect_left, bisect_right}

module _ {A : Type 0} ⦃slot : Slot A⦄ where
  -- Every slot's key is above `key`.
  abbrev pub Above : Bytes → List A → Type 0
  Above key slots = All (λ s. lt_bytes key (slot.key_of s) ≡ true) slots

  -- The keys strictly increase.
  abbrev pub IsSorted : List A → Type 0
  IsSorted [] = Unit {0}
  IsSorted (s ∷ slots) = Above (slot.key_of s) slots × IsSorted slots

  pub Above-trans :
      (a b : Bytes) (slots : List A) → lt_bytes a b ≡ true → Above b slots → Above a slots
  Above-trans a b [] h above = tt
  Above-trans a b (s ∷ slots) h above =
      (lt_bytes_trans a b (slot.key_of s) h above.0, Above-trans a b slots h above.1)

  none_left :
      (key : Bytes) (slots : List A)
      → Above key slots
      → All (λ s. lt_bytes (slot.key_of s) key ≡ false) slots
  none_left key [] h = tt
  none_left key (s ∷ slots) h = (lt_bytes_asym key (slot.key_of s) h.0, none_left key slots h.1)

  not_less-Above :
      (a b : Bytes) (slots : List A) → lt_bytes a b ≡ false → Above a slots → Above b slots
  not_less-Above a b slots h above = elim (Bool-cases (lt_bytes b a)) [
    | inl lt ↦ Above-trans b a slots lt above
    | inr ge ↦ rw (← eq_bytes→eq a b (lt_bytes_total a b h ge)) above
  ]

  Falls-left :
      (key : Bytes) (slots : List A)
      → IsSorted slots
      → Falls (λ s. lt_bytes (slot.key_of s) key) slots
  Falls-left key [] h = tt
  Falls-left key (s ∷ slots) h = (
    λ e. none_left key slots (not_less-Above (slot.key_of s) key slots e h.0),
    Falls-left key slots h.1,
  )

  none_right :
      (key : Bytes) (slots : List A)
      → Above key slots
      → All (λ s. not (lt_bytes key (slot.key_of s)) ≡ false) slots
  none_right key [] h = tt
  none_right key (s ∷ slots) h = (rw h.0, none_right key slots h.1)

  Falls-right :
      (key : Bytes) (slots : List A)
      → IsSorted slots
      → Falls (λ s. not (lt_bytes key (slot.key_of s))) slots
  Falls-right key [] h = tt
  Falls-right key (s ∷ slots) h = (
    λ e. none_right key slots (Above-trans key (slot.key_of s) slots (ground arith) h.0),
    Falls-right key slots h.1,
  )

  -- The left bisection counts the keys below, the right one those not above.
  pub bisect_left-front :
      (slots : List A) (key : Bytes)
      → IsSorted slots
      → bisect_left slots key ≡ front (λ s. lt_bytes (slot.key_of s) key) slots
  unfolding bisect_left
  bisect_left-front slots key h = bisect-front _ slots (Falls-left key slots h)

  pub bisect_right-front :
      (slots : List A) (key : Bytes)
      → IsSorted slots
      → bisect_right slots key ≡ front (λ s. not (lt_bytes key (slot.key_of s))) slots
  unfolding bisect_right
  bisect_right-front slots key h = bisect-front _ slots (Falls-right key slots h)
