-- ===== src/Tree/Rebalance/Stuck.antt =====
-- Two internal siblings with long keys in `_redistribute_or_merge_page` of src/bptreedb/tree.py.
use bptreedb.Prelude.{
  if_true, ap, ◌∙◌, ℕ, ◌+◌, ◌*◌, ◌<◌, ◌≡◌, refl, Bool, true, false, none, List, [], ◌∷◌, ◌++◌,
  arith, length,
}
use bptreedb.Exceptions.{ok, ◌>>=◌}
use bptreedb.Entities.{InternalSlot, InternalPage}
use bptreedb.Codec.Sizes.{InternalSlot-Slot, calculate_page_size_lem, body_size}
use bptreedb.Tree.Split.{is_page_underpopulated, is_page_overpopulated, raise_if_record_too_large}
use bptreedb.Tree.Rebalance.{
  internal_from_last, Sides, move_internal_from_left, move_internal_slots, move_internal_from_right,
  internal_move, internal_under, try_redistribute_internal, redistribute_loop, after_move,
}
use bptreedb.Sequence.{pop_last}
use bptreedb.Tree.Rebalance.Internal.{joined}

-- Pages of three and of two children's separators, all keys of one length.
pub record EqualKeys (n : ℕ) (t : Sides InternalPage) (a b c d e : InternalSlot) : Type 0 where
  pub donor_slots : t.donor.slots ≡ a ∷ b ∷ c ∷ []
  pub recipient_slots : t.recipient.slots ≡ d ∷ e ∷ []
  pub key_lengths :
      (length a.key ≡ n)
      × (length b.key ≡ n)
      × (length c.key ≡ n)
      × (length d.key ≡ n)
      × (length e.key ≡ n)
      × (length t.separator ≡ n)

under_two :
    (p n : ℕ) (a b : InternalSlot)
    → length a.key ≡ n
    → length b.key ≡ n
    → 5 * (32 + 2 * (20 + n)) < 2 * p
    → is_page_underpopulated p (a ∷ b ∷ []) ≡ true
unfolding is_page_underpopulated body_size
under_two p n a b ea eb small = ground (arith, calculate_page_size_lem (a ∷ b ∷ []))

over_six :
    (p n : ℕ) (a b c d e f : InternalSlot)
    → length a.key + length b.key + length c.key + length d.key + length e.key + length f.key
      ≡ 6 * n
    → p < 32 + 6 * (20 + n)
    → is_page_overpopulated p (a ∷ b ∷ c ∷ d ∷ e ∷ f ∷ []) ≡ true
unfolding is_page_overpopulated body_size
over_six p n a b c d e f lengths large =
    ground (arith, calculate_page_size_lem (a ∷ b ∷ c ∷ d ∷ e ∷ f ∷ []))

healthy_three :
    (p n : ℕ) (a b c : InternalSlot)
    → length a.key + length b.key + length c.key ≡ 3 * n
    → p < 32 + 6 * (20 + n)
    → is_page_underpopulated p (a ∷ b ∷ c ∷ []) ≡ false
unfolding is_page_underpopulated body_size
healthy_three p n a b c lengths large = ground (arith, calculate_page_size_lem (a ∷ b ∷ c ∷ []))

gives_up :
    (p : ℕ) (from_left : Bool) (t t' : Sides InternalPage)
    → internal_under p t.recipient ≡ true
    → internal_move from_left t ≡ ok t'
    → internal_under p t'.donor ≡ true
    → try_redistribute_internal p from_left t ≡ ok none
unfolding try_redistribute_internal redistribute_loop
gives_up p from_left t t' under moved bad =
    if_true _ _ under
    ∙ ap
        (after_move (internal_under p) (internal_move from_left)
          (redistribute_loop (internal_under p) (internal_move from_left) (length t.donor.slots)))
        moved
    ∙ if_true _ _ bad

-- A move leaves the donor with the slots but the last, or but the first.
left_donor :
    (t : Sides InternalPage) (rest : List InternalSlot) (s : InternalSlot)
    → pop_last t.donor.slots ≡ ok (rest, s)
    → (t' : Sides InternalPage) × (move_internal_from_left t ≡ ok t') × (t'.donor.slots ≡ rest)
unfolding move_internal_from_left
left_donor t rest s h =
    (internal_from_last t (rest, s), ap (λ m. m >>= λ r. ok (internal_from_last t r)) h, refl)

module _ (p n : ℕ) (t : Sides InternalPage) (a b c d e : InternalSlot) (k : EqualKeys n t a b c d e)
    (small : 5 * (32 + 2 * (20 + n)) < 2 * p) (large : p < 32 + 6 * (20 + n)) where
  open k use {donor_slots, recipient_slots, key_lengths}

  donor_healthy : internal_under p t.donor ≡ false
  donor_healthy =
      ap (is_page_underpopulated p) donor_slots
      ∙ healthy_three p n a b c (omega (arith, key_lengths.0, key_lengths.1, key_lengths.2)) large

  recipient_under : internal_under p t.recipient ≡ true
  recipient_under =
      ap (is_page_underpopulated p) recipient_slots
      ∙ under_two p n d e key_lengths.3 key_lengths.4 small

  no_share : (from_left : Bool) → try_redistribute_internal p from_left t ≡ ok none
  unfolding pop_last move_internal_from_right move_internal_slots
  no_share true =
      let (t', moved, left_over) = left_donor t (a ∷ b ∷ []) c (ap pop_last donor_slots) in
      gives_up p true t t' recipient_under moved (
        ap (is_page_underpopulated p) left_over
        ∙ under_two p n a b key_lengths.0 key_lengths.1 small)
  no_share false =
      gives_up p false t _ recipient_under (ap (move_internal_slots t) donor_slots)
        (under_two p n b c key_lengths.1 key_lengths.2 small)

  no_merge : (from_left : Bool) → is_page_overpopulated p (joined from_left t).slots ≡ true
  no_merge true =
      ap
        (λ (x : List InternalSlot × List InternalSlot). is_page_overpopulated p (
          x.0
          ++ record { key = t.separator; child_page_id = t.recipient.leftmost_child_page_id }
            ∷ x.1))
        (λ i. (donor_slots i, recipient_slots i))
      ∙ over_six p n a b c _ d e
          (omega (
            arith, key_lengths.0, key_lengths.1, key_lengths.2, key_lengths.3, key_lengths.4,
            key_lengths.5,
          ))
          large
  no_merge false =
      ap
        (λ (x : List InternalSlot × List InternalSlot). is_page_overpopulated p (
          x.1
          ++ record { key = t.separator; child_page_id = t.donor.leftmost_child_page_id } ∷ x.0))
        (λ i. (donor_slots i, recipient_slots i))
      ∙ over_six p n d e _ a b c
          (omega (
            arith, key_lengths.0, key_lengths.1, key_lengths.2, key_lengths.3, key_lengths.4,
            key_lengths.5,
          ))
          large

  accepted : raise_if_record_too_large p t.separator [] ≡ ok tt
  unfolding raise_if_record_too_large
  accepted = ground (arith, key_lengths.5)

-- A donor with three separators and a recipient with two, all keys and the separator between the
-- pages of one length, for which two slots leave a page underpopulated and six overfill it: the
-- donor is healthy and the recipient is not, the redistribution gives up on either side, and the
-- two pages do not fit on one with the separator between them; a record with that key and an empty
-- value is not too large.
pub internal_siblings_stuck :
    (p n : ℕ) (from_left : Bool) (t : Sides InternalPage) (a b c d e : InternalSlot)
    → EqualKeys n t a b c d e
    → 5 * (32 + 2 * (20 + n)) < 2 * p
    → p < 32 + 6 * (20 + n)
    → (internal_under p t.donor ≡ false)
      × (internal_under p t.recipient ≡ true)
      × (try_redistribute_internal p from_left t ≡ ok none)
      × (is_page_overpopulated p (joined from_left t).slots ≡ true)
      × (raise_if_record_too_large p t.separator [] ≡ ok tt)
internal_siblings_stuck p n from_left t a b c d e k small large = (
  donor_healthy p n t a b c d e k small large,
  recipient_under p n t a b c d e k small large,
  no_share p n t a b c d e k small large from_left,
  no_merge p n t a b c d e k small large from_left,
  accepted p n t a b c d e k small large,
)
