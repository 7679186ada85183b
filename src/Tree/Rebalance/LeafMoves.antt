-- ===== src/Tree/Rebalance/LeafMoves.antt =====
-- One round of `_try_redistribute_slots` of src/bptreedb/tree.py between two leaves.
use bptreedb.Prelude.{
  ℕ, suc, ◌+◌, ◌-◌, ◌*◌, ◌≤◌, ◌≡◌, refl, sym, ap, subst, ◌∙◌, Bool, true, false, List, [], ◌∷◌,
  ◌++◌, arith, length, append_assoc, All-of_append,
}
use bptreedb.Exceptions.{ok, >>=-eq-ok, ok-injective}
use bptreedb.Struct.{Bytes}
use bptreedb.Entities.{LeafSlot, LeafPage}
use bptreedb.Codec.Sizes.{LeafSlot-Slot, body_size, body_size-append}
use bptreedb.Tree.Split.Leaf.{SlotsFit}
use bptreedb.Tree.Rebalance.{
  Sides, move_leaf_from_left, move_leaf_slots, move_leaf_from_right, leaf_move,
}
use bptreedb.Sequence.{pop_last, length-pop_last, pop_last-snoc}

-- The slots of both pages, from left to right.
abbrev pub in_order : Bool → Sides LeafPage → List LeafSlot
in_order true t = t.donor.slots ++ t.recipient.slots
in_order false t = t.recipient.slots ++ t.donor.slots

-- The key of the separator is the first one on its right.
abbrev pub right_page : Bool → Sides LeafPage → LeafPage
right_page true t = t.recipient
right_page false t = t.donor

abbrev pub Separates : Bytes → LeafPage → Type 0
Separates key page =
    (s : LeafSlot) × (rest : List LeafSlot) × (page.slots ≡ s ∷ rest) × (key ≡ s.key)

abbrev pub SameFrame : LeafPage → LeafPage → Type 0
SameFrame a b =
    (a.last_modified_lsn ≡ b.last_modified_lsn)
    × (a.right_sibling_page_id ≡ b.right_sibling_page_id)

-- What one move keeps.
pub record Moved (from_left : Bool) (t t' : Sides LeafPage) : Type 0 where
  pub order : in_order from_left t' ≡ in_order from_left t
  pub separates : Separates t'.separator (right_page from_left t')
  pub donor_frame : SameFrame t'.donor t.donor
  pub recipient_frame : SameFrame t'.recipient t.recipient
  pub shrinks : length t.donor.slots ≡ suc (length t'.donor.slots)
  pub moved : LeafSlot
  pub taken :
      body_size t.donor.slots ≡ body_size t'.donor.slots + LeafSlot-Slot.slot_size moved true
  pub fifth : (p : ℕ) → SlotsFit p t.donor.slots → 5 * LeafSlot-Slot.slot_size moved true ≤ p - 32

left-Moved : (t t' : Sides LeafPage) → move_leaf_from_left t ≡ ok t' → Moved true t t'
unfolding move_leaf_from_left
left-Moved t t' h =
    let (r, e, e') = >>=-eq-ok (pop_last t.donor.slots) _ h in
    let same = ok-injective e' in
    rw (← same) (record {
      order =
          sym (append_assoc r.0 (r.1 ∷ []) t.recipient.slots)
          ∙ ap (λ x. x ++ t.recipient.slots) (sym (pop_last-snoc t.donor.slots r.0 r.1 e));
      separates = (r.1, t.recipient.slots, refl, refl);
      donor_frame = (refl, refl);
      recipient_frame = (refl, refl);
      shrinks = length-pop_last t.donor.slots r.0 r.1 e;
      moved = r.1;
      taken =
          ap body_size (pop_last-snoc t.donor.slots r.0 r.1 e)
          ∙ body_size-append r.0 (r.1 ∷ [])
          ∙ single r.0 r.1;
      fifth = λ p fits.
          (All-of_append _ r.0 (r.1 ∷ [])
            (subst (λ x. SlotsFit p x) (pop_last-snoc t.donor.slots r.0 r.1 e) fits)).1.0;
    })
  where
    single :
        (xs : List LeafSlot) (s : LeafSlot)
        → body_size xs + body_size (s ∷ []) ≡ body_size xs + LeafSlot-Slot.slot_size s true
    single xs s = unfold body_size in omega arith

right_slots-Moved :
    (t t' : Sides LeafPage) (slots : List LeafSlot)
    → t.donor.slots ≡ slots
    → move_leaf_slots t slots ≡ ok t'
    → Moved false t t'
unfolding move_leaf_slots
right_slots-Moved t t' [] e h = cc
right_slots-Moved t t' (s ∷ []) e h = cc
right_slots-Moved t t' (s ∷ next ∷ rest) e h =
    let same = ok-injective h in
    rw (← same) (record {
      order =
          append_assoc t.recipient.slots (s ∷ []) (next ∷ rest)
          ∙ ap (λ x. t.recipient.slots ++ x) (sym e);
      separates = (next, rest, refl, refl);
      donor_frame = (refl, refl);
      recipient_frame = (refl, refl);
      shrinks = ap length e;
      moved = s;
      taken = ap body_size e ∙ unfold body_size in omega arith;
      fifth = λ p fits. (subst (λ x. SlotsFit p x) e fits).0;
    })

pub move-Moved :
    (from_left : Bool) (t t' : Sides LeafPage)
    → leaf_move from_left t ≡ ok t'
    → Moved from_left t t'
unfolding move_leaf_from_right
move-Moved true t t' h = left-Moved t t' h
move-Moved false t t' h = right_slots-Moved t t' t.donor.slots refl h
