-- ===== src/Tree/Rebalance/Leaf.antt =====
-- `_try_redistribute_slots` of src/bptreedb/tree.py for two sibling leaves, and their merge.
use bptreedb.Prelude.{
  ℕ, suc, ◌+◌, ◌*◌, ◌≤◌, ◌<◌, ◌≡◌, ◌≢◌, refl, sym, ap, subst, ◌∙◌, Bool, true, false, none, some,
  List, [], ◌∷◌, arith, length, All-of_append, ◌⊎◌, inl, inr,
}
use bptreedb.Exceptions.{ok, err, assertion_error}
use bptreedb.Entities.{LeafSlot, LeafPage}
use bptreedb.Codec.Sizes.{LeafSlot-Slot, calculate_page_size_lem, body_size, body_size-append}
use bptreedb.Tree.Split.{is_page_underpopulated, is_page_overpopulated}
use bptreedb.Tree.Split.Leaf.{SlotsFit}
use bptreedb.Sequence.{pop_last-raises}
use bptreedb.Tree.Rebalance.{
  Sides, move_leaf_from_left, move_leaf_slots, move_leaf_from_right, leaf_move, leaf_under,
  try_redistribute_leaf, merge_leaves,
}
use bptreedb.Tree.Rebalance.Fuel.{
  redistribute_loop-some, redistribute_loop-none, redistribute_loop-ends,
}
use bptreedb.Tree.Rebalance.LeafMoves.{in_order, right_page, Separates, SameFrame, move-Moved}

-- What the loop keeps, from the pages `t` that it started with.
record Reached (from_left : Bool) (t v : Sides LeafPage) : Type 0 where
  order : in_order from_left v ≡ in_order from_left t
  separates : (v ≡ t) ⊎ Separates v.separator (right_page from_left v)
  donor_frame : SameFrame v.donor t.donor
  recipient_frame : SameFrame v.recipient t.recipient

Reached-move :
    (from_left : Bool) (t v v' : Sides LeafPage)
    → Reached from_left t v
    → leaf_move from_left v ≡ ok v'
    → Reached from_left t v'
Reached-move from_left t v v' r h =
    let m = move-Moved from_left v v' h in
    record {
      order = m.order ∙ r.order;
      separates = inr m.separates;
      donor_frame = (m.donor_frame.0 ∙ r.donor_frame.0, m.donor_frame.1 ∙ r.donor_frame.1);
      recipient_frame =
          (m.recipient_frame.0 ∙ r.recipient_frame.0, m.recipient_frame.1 ∙ r.recipient_frame.1);
    }

Reached-refl : (from_left : Bool) (t : Sides LeafPage) → Reached from_left t t
Reached-refl from_left t = record {
  order = refl;
  separates = inl refl;
  donor_frame = (refl, refl);
  recipient_frame = (refl, refl);
}

-- What a successful redistribution promises.
pub record LeafBalanced (p : ℕ) (from_left : Bool) (t u : Sides LeafPage) : Type 0 where
  pub order : in_order from_left u ≡ in_order from_left t
  pub recipient_healthy : leaf_under p u.recipient ≡ false
  pub donor_healthy : leaf_under p u.donor ≡ false
  pub separates : Separates u.separator (right_page from_left u)
  pub donor_frame : SameFrame u.donor t.donor
  pub recipient_frame : SameFrame u.recipient t.recipient

-- A redistribution to an underpopulated leaf that succeeds keeps all slots in order, leaves
-- neither page underpopulated, and makes the separator the first key of the right page; the links
-- and the stamps of the pages stay.
pub try_redistribute_leaf-some :
    (p : ℕ) (from_left : Bool) (t u : Sides LeafPage)
    → leaf_under p t.recipient ≡ true
    → try_redistribute_leaf p from_left t ≡ ok (some u)
    → LeafBalanced p from_left t u
unfolding try_redistribute_leaf
try_redistribute_leaf-some p from_left t u under h =
    let (r, healthy, healthy') =
      redistribute_loop-some (leaf_under p) (leaf_move from_left) (Reached from_left t)
        (Reached-move from_left t) (suc (length t.donor.slots)) t u (Reached-refl from_left t) under
        h in
    record {
      order = r.order;
      recipient_healthy = healthy;
      donor_healthy = healthy';
      separates = elim r.separates [
        | inl same ↦ absurd (differ (ap (λ x. leaf_under p x.recipient) same) healthy under)
        | inr s ↦ s
      ];
      donor_frame = r.donor_frame;
      recipient_frame = r.recipient_frame;
    }
  where
    differ : {a b : Bool} → a ≡ b → a ≡ false → b ≡ true → ⊥
    differ e f g = cc

move-raises : (from_left : Bool) (t : Sides LeafPage) → leaf_move from_left t ≢ err assertion_error
unfolding move_leaf_from_left move_leaf_from_right move_leaf_slots
move-raises true t e = ground (arith, pop_last-raises t.donor.slots)
move-raises false t e = slots t.donor.slots e
  where
    slots : (xs : List LeafSlot) → move_leaf_slots t xs ≡ err assertion_error → ⊥
    slots [] h = cc
    slots (s ∷ []) h = cc
    slots (s ∷ next ∷ rest) h = cc

-- The bound on its rounds never ends a redistribution between leaves.
pub try_redistribute_leaf-ends :
    (p : ℕ) (from_left : Bool) (t : Sides LeafPage)
    → try_redistribute_leaf p from_left t ≢ err assertion_error
unfolding try_redistribute_leaf
try_redistribute_leaf-ends p from_left t =
    redistribute_loop-ends (leaf_under p) (leaf_move from_left) (λ page. length page.slots)
      (λ v v' h. (move-Moved from_left v v' h).shrinks) (move-raises from_left)
      (suc (length t.donor.slots)) t (omega arith)

abbrev pub left_page : Bool → Sides LeafPage → LeafPage
left_page true t = t.donor
left_page false t = t.recipient

in_order-parts :
    (from_left : Bool) (t : Sides LeafPage)
    → body_size (in_order from_left t) ≡ body_size t.donor.slots + body_size t.recipient.slots
in_order-parts true t = body_size-append t.donor.slots t.recipient.slots
in_order-parts false t = omega (arith, body_size-append t.recipient.slots t.donor.slots)

donor-SlotsFit :
    (p : ℕ) (from_left : Bool) (t : Sides LeafPage)
    → SlotsFit p (in_order from_left t)
    → SlotsFit p t.donor.slots
donor-SlotsFit p true t h = (All-of_append _ t.donor.slots t.recipient.slots h).0
donor-SlotsFit p false t h = (All-of_append _ t.recipient.slots t.donor.slots h).1

under→lt :
    (p : ℕ) (slots : List LeafSlot)
    → is_page_underpopulated p slots ≡ true
    → 5 * (32 + body_size slots) < 2 * p
unfolding is_page_underpopulated
under→lt p slots h = ground (arith, calculate_page_size_lem slots)

not_over :
    (p : ℕ) (slots : List LeafSlot)
    → 32 + body_size slots ≤ p
    → is_page_overpopulated p slots ≡ false
unfolding is_page_overpopulated
not_over p slots h = ground (arith, calculate_page_size_lem slots)

probe-order :
    (from_left : Bool) (t : Sides LeafPage)
    → (merge_leaves (left_page from_left t) (right_page from_left t)).slots ≡ in_order from_left t
probe-order true t = refl
probe-order false t = refl

-- Where a redistribution between leaves gives up, and each of their slots takes at most a fifth of
-- the space behind the header, the two pages fit on one: the assertion at the end of
-- `_redistribute_or_merge_page` is out of reach for such leaves.
pub try_redistribute_leaf-none :
    (p : ℕ) (from_left : Bool) (t : Sides LeafPage)
    → SlotsFit p (in_order from_left t)
    → try_redistribute_leaf p from_left t ≡ ok none
    → is_page_overpopulated p (merge_leaves (left_page from_left t) (right_page from_left t)).slots
      ≡ false
unfolding try_redistribute_leaf
try_redistribute_leaf-none p from_left t fits h =
    let (u, u', r, under, moved, bad) =
      redistribute_loop-none (leaf_under p) (leaf_move from_left) (Reached from_left t)
        (Reached-move from_left t) (suc (length t.donor.slots)) t (Reached-refl from_left t) h in
    let m = move-Moved from_left u u' moved in
    let fits' = subst (λ x. SlotsFit p x) (sym r.order) fits in
    let fifth = m.fifth p (donor-SlotsFit p from_left u fits') in
    not_over p (merge_leaves (left_page from_left t) (right_page from_left t)).slots (
      omega (
        arith,
        ap body_size (probe-order from_left t),
        ap body_size r.order,
        in_order-parts from_left u,
        m.taken,
        fifth,
        under→lt p u.recipient.slots under,
        under→lt p u'.donor.slots bad,
      ))
