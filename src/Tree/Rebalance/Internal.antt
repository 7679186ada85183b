-- ===== src/Tree/Rebalance/Internal.antt =====
-- `_try_redistribute_slots` of src/bptreedb/tree.py for two sibling internal pages.
use bptreedb.Prelude.{
  ℕ, suc, ◌≡◌, ◌≢◌, refl, sym, ap, ◌∙◌, Bool, true, false, some, List, [], ◌∷◌, ◌++◌, arith, length,
  append_assoc,
}
use bptreedb.Exceptions.{ok, err, assertion_error, >>=-eq-ok, ok-injective}
use bptreedb.Entities.{InternalSlot, InternalPage}
use bptreedb.Codec.Sizes.{InternalSlot-Slot}
use bptreedb.Tree.Rebalance.{
  Sides, move_internal_from_left, move_internal_slots, move_internal_from_right, internal_move,
  internal_under, try_redistribute_internal, merge_internals,
}
use bptreedb.Tree.Rebalance.Fuel.{redistribute_loop-some, redistribute_loop-ends}
use bptreedb.Sequence.{pop_last, length-pop_last, pop_last-snoc, pop_last-raises}

abbrev pub left_page : Bool → Sides InternalPage → InternalPage
left_page true t = t.donor
left_page false t = t.recipient

abbrev pub right_page : Bool → Sides InternalPage → InternalPage
right_page true t = t.recipient
right_page false t = t.donor

-- Both pages with their separator between them: all children and separators, from left to right.
abbrev pub joined : Bool → Sides InternalPage → InternalPage
joined from_left t = merge_internals (left_page from_left t) t.separator (right_page from_left t)

record Moved (from_left : Bool) (t t' : Sides InternalPage) : Type 0 where
  same : joined from_left t' ≡ joined from_left t
  shrinks : length t.donor.slots ≡ suc (length t'.donor.slots)

abbrev page_of : ℕ → List InternalSlot → InternalPage
page_of child slots = record {
  last_modified_lsn = 0;
  leftmost_child_page_id = child;
  slots = slots;
}

left-Moved : (t t' : Sides InternalPage) → move_internal_from_left t ≡ ok t' → Moved true t t'
unfolding move_internal_from_left
left-Moved t t' h =
    let (r, e, e') = >>=-eq-ok (pop_last t.donor.slots) _ h in
    let same = ok-injective e' in
    let right =
      record { key = t.separator; child_page_id = t.recipient.leftmost_child_page_id }
      ∷ t.recipient.slots in
    rw (← same) (record {
      same = ap (page_of t.donor.leftmost_child_page_id) (
          sym (append_assoc r.0 (r.1 ∷ []) right)
          ∙ ap (λ x. x ++ right) (sym (pop_last-snoc t.donor.slots r.0 r.1 e)));
      shrinks = length-pop_last t.donor.slots r.0 r.1 e;
    })

right_slots-Moved :
    (t t' : Sides InternalPage) (slots : List InternalSlot)
    → t.donor.slots ≡ slots
    → move_internal_slots t slots ≡ ok t'
    → Moved false t t'
unfolding move_internal_slots
right_slots-Moved t t' [] e h = cc
right_slots-Moved t t' (s ∷ rest) e h =
    let same = ok-injective h in
    let down : InternalSlot = record {
      key = t.separator;
      child_page_id = t.donor.leftmost_child_page_id;
    } in
    rw (← same) (record {
      same = ap (page_of t.recipient.leftmost_child_page_id) (
          append_assoc t.recipient.slots (down ∷ []) (s ∷ rest)
          ∙ ap (λ x. t.recipient.slots ++ down ∷ x) (sym e));
      shrinks = ap length e;
    })

move-Moved :
    (from_left : Bool) (t t' : Sides InternalPage)
    → internal_move from_left t ≡ ok t'
    → Moved from_left t t'
unfolding move_internal_from_right
move-Moved true t t' h = left-Moved t t' h
move-Moved false t t' h = right_slots-Moved t t' t.donor.slots refl h

-- A redistribution to an underpopulated internal page that succeeds keeps all children and
-- separators in order, and leaves neither page underpopulated.
pub try_redistribute_internal-some :
    (p : ℕ) (from_left : Bool) (t u : Sides InternalPage)
    → internal_under p t.recipient ≡ true
    → try_redistribute_internal p from_left t ≡ ok (some u)
    → (joined from_left u ≡ joined from_left t)
      × (internal_under p u.recipient ≡ false)
      × (internal_under p u.donor ≡ false)
unfolding try_redistribute_internal
try_redistribute_internal-some p from_left t u under h =
    redistribute_loop-some (internal_under p) (internal_move from_left)
      (λ v. joined from_left v ≡ joined from_left t)
      (λ v v' e m. (move-Moved from_left v v' m).same ∙ e) (suc (length t.donor.slots)) t u refl
      under h

move-raises :
    (from_left : Bool) (t : Sides InternalPage) → internal_move from_left t ≢ err assertion_error
unfolding move_internal_from_left move_internal_from_right move_internal_slots
move-raises true t e = ground (arith, pop_last-raises t.donor.slots)
move-raises false t e = slots t.donor.slots e
  where
    slots : (xs : List InternalSlot) → move_internal_slots t xs ≡ err assertion_error → ⊥
    slots [] h = cc
    slots (s ∷ rest) h = cc

-- The bound on its rounds never ends a redistribution between internal pages.
pub try_redistribute_internal-ends :
    (p : ℕ) (from_left : Bool) (t : Sides InternalPage)
    → try_redistribute_internal p from_left t ≢ err assertion_error
unfolding try_redistribute_internal
try_redistribute_internal-ends p from_left t =
    redistribute_loop-ends (internal_under p) (internal_move from_left) (λ page. length page.slots)
      (λ v v' h. (move-Moved from_left v v' h).shrinks) (move-raises from_left)
      (suc (length t.donor.slots)) t (omega arith)
