-- ===== src/Tree/Content/Links.antt =====
-- The leaves of a stored tree one by one, for the walk along their links in src/bptreedb/tree.py.
use bptreedb.Prelude.{ℕ, zero, suc, ◌≡◌, Option, some, List, [], ◌∷◌, ◌++◌, All, All-append}
use bptreedb.Entities.{InternalSlot, TreePage, leaf}
use bptreedb.Codec.Sizes.{LeafSlot-Slot, InternalSlot-Slot}
use bptreedb.Tree.Content.{Leaf, Holds, Spread, IsLinked}

-- Every one of the leaves is there under its ID.
abbrev pub Seen : (ℕ → Option TreePage) → List Leaf → Type 0
Seen view = All (λ e. view e.0 ≡ some (leaf e.1))

Spread-Seen :
    (view : ℕ → Option TreePage) (P : ℕ → List Leaf → Type 0) (child : ℕ)
    (slots : List InternalSlot) (leaves : List Leaf)
    → ((page_id : ℕ) (part : List Leaf) → P page_id part → Seen view part)
    → Spread P child slots leaves
    → Seen view leaves
Spread-Seen view P child [] leaves each h = each child leaves h
Spread-Seen view P child (x ∷ slots) leaves each (front, back, e, first, low, high, rest) = rw e (
    All-append _ front back (each child front first)
      (Spread-Seen view P x.child_page_id slots back each rest))

pub Holds-Seen :
    (view : ℕ → Option TreePage) (height page_id : ℕ) (leaves : List Leaf)
    → Holds view height page_id leaves
    → Seen view leaves
Holds-Seen view zero page_id leaves (page, at, e) = rw e (at, tt)
Holds-Seen view (suc height) page_id leaves (page, at, sorted, spread) =
    Spread-Seen view (Holds view height) page.leftmost_child_page_id page.slots leaves
      (Holds-Seen view height) spread

pub IsLinked-back : (xs ys : List Leaf) → IsLinked (xs ++ ys) → IsLinked ys
IsLinked-back [] ys h = h
IsLinked-back (x ∷ xs) ys h = IsLinked-back xs ys h.2

pub Seen-back :
    (view : ℕ → Option TreePage) (xs ys : List Leaf) → Seen view (xs ++ ys) → Seen view ys
Seen-back view [] ys h = h
Seen-back view (x ∷ xs) ys h = Seen-back view xs ys h.1
