-- ===== src/Tree/Content/Parts.antt =====
-- The leaf of a stored tree to which a key belongs, among the other leaves.
use bptreedb.Prelude.{
  ℕ, ◌≡◌, sym, ap, ◌∙◌, List, [], ◌∷◌, ◌++◌, append_assoc, append-nil, All-append, All-of_append,
}
use bptreedb.Struct.{Bytes}
use bptreedb.Entities.{LeafSlot, LeafPage}
use bptreedb.Codec.Sizes.{LeafSlot-Slot, InternalSlot-Slot}
use bptreedb.Tree.Slots.{search_slots}
use bptreedb.Tree.Slots.Order.{IsSorted}
use bptreedb.Tree.Slots.Lookup.{lookup, search_slots-lookup}
use bptreedb.Tree.Content.{Leaf, items}
use bptreedb.Tree.Content.Between.{Around, lookup-Around, items-append}

-- Around a part of a part.
pub Around-trans :
    (key : Bytes) (leaves f m b f' m' b' : List Leaf)
    → Around key leaves f m b
    → Around key m f' m' b'
    → Around key leaves (f ++ f') m' (b' ++ b)
Around-trans key leaves f m b f' m' b' outer inner = record {
  parts = outer.parts ∙ ap (λ zs. f ++ (zs ++ b)) inner.parts ∙ simp append_assoc;
  below = rw (items-append f f') (All-append _ (items f) (items f') outer.below inner.below);
  above = rw (items-append b' b) (All-append _ (items b') (items b) inner.above outer.above);
}

pub IsSorted-front : (xs ys : List LeafSlot) → IsSorted (xs ++ ys) → IsSorted xs
IsSorted-front [] ys h = tt
IsSorted-front (x ∷ xs) ys h = ((All-of_append _ xs ys h.0).0, IsSorted-front xs ys h.1)

pub IsSorted-back : (xs ys : List LeafSlot) → IsSorted (xs ++ ys) → IsSorted ys
IsSorted-back [] ys h = h
IsSorted-back (x ∷ xs) ys h = IsSorted-back xs ys h.1

pub items-Around :
    (key : Bytes) (leaves front middle back : List Leaf)
    → Around key leaves front middle back
    → items leaves ≡ items front ++ (items middle ++ items back)
items-Around key leaves front middle back around =
    ap items around.parts
    ∙ items-append front (middle ++ back)
    ∙ ap (λ (zs : List LeafSlot). items front ++ zs) (items-append middle back)

pub items-one : (page_id : ℕ) (page : LeafPage) → items ((page_id, page) ∷ []) ≡ page.slots
unfolding items
items-one page_id page = append-nil page.slots

-- The leaf to which a key belongs answers for all leaves.
pub leaf_lookup :
    (key : Bytes) (leaves front back : List Leaf) (page_id : ℕ) (page : LeafPage)
    → IsSorted (items leaves)
    → Around key leaves front ((page_id, page) ∷ []) back
    → search_slots page.slots key ≡ lookup (items leaves) key
leaf_lookup key leaves front back page_id page sorted around =
    let parts : items leaves ≡ items front ++ (page.slots ++ items back) =
      items-Around key leaves front ((page_id, page) ∷ []) back around
      ∙ ap (λ (zs : List LeafSlot). items front ++ (zs ++ items back)) (items-one page_id page) in
    let sorted' : IsSorted (items front ++ (page.slots ++ items back)) = rw parts at sorted in
    search_slots-lookup page.slots key (
      IsSorted-front page.slots (items back)
        (IsSorted-back (items front) (page.slots ++ items back) sorted'))
    ∙ sym (lookup-Around key (items front) page.slots (items back) around.below around.above)
    ∙ ap (λ zs. lookup zs key) (sym parts)
