-- ===== src/Tree/Content.antt =====
-- What a stored tree holds: its leaves from left to right, under separators that stand between them.
pub mod Between
pub mod Parts
pub mod Search
pub mod Range
pub mod Links
pub mod Leaves
pub mod Collect
pub mod Cached
use bptreedb.Prelude.{
  ℕ, zero, suc, ◌≤◌, ◌<◌, ◌≡◌, Bool, true, false, Option, none, some, List, [], ◌∷◌, ◌++◌, length,
  All,
}
use bptreedb.Exceptions.{Result, ok}
use bptreedb.Struct.{Bytes}
use bptreedb.Keys.{lt_bytes}
use bptreedb.Entities.{
  MetaPage, LeafSlot, LeafPage, InternalSlot, InternalPage, TreePage, leaf, internal,
}
use bptreedb.Codec.Sizes.{LeafSlot-Slot, InternalSlot-Slot}
use bptreedb.Tree.Slots.Order.{IsSorted}
use bptreedb.Tree.Store.{PageStore}

-- A leaf with its ID.
abbrev pub Leaf : Type 0
Leaf = ℕ × LeafPage

unfoldable pub items : List Leaf → List LeafSlot
items [] = []
items ((page_id, page) ∷ leaves) = page.slots ++ items leaves

abbrev pub Below : Bytes → List LeafSlot → Type 0
Below key = All (λ x. lt_bytes x.key key ≡ true)

abbrev pub NotBelow : Bytes → List LeafSlot → Type 0
NotBelow key = All (λ x. lt_bytes x.key key ≡ false)

-- The children of an internal page: the separator is above the keys on its left, and not above those
-- on its right.
abbrev pub Spread : (ℕ → List Leaf → Type 0) → ℕ → List InternalSlot → List Leaf → Type 0
Spread P child [] leaves = P child leaves
Spread P child (s ∷ slots) leaves =
    (front : List Leaf) × (back : List Leaf) × (leaves ≡ front ++ back)
    × P child front
    × Below s.key (items front)
    × NotBelow s.key (items back)
    × Spread P s.child_page_id slots back

-- The page `page_id` is the root of a tree of this height with these leaves.
abbrev pub Holds : (ℕ → Option TreePage) → ℕ → ℕ → List Leaf → Type 0
Holds view zero page_id leaves =
    (page : LeafPage) × (view page_id ≡ some (leaf page)) × (leaves ≡ (page_id, page) ∷ [])
Holds view (suc height) page_id leaves =
    (page : InternalPage) × (view page_id ≡ some (internal page))
    × IsSorted page.slots
    × Spread (Holds view height) page.leftmost_child_page_id page.slots leaves

-- The links from each leaf to the next; 0 behind the last one.
abbrev pub first_id : List Leaf → ℕ
first_id [] = 0
first_id ((page_id, page) ∷ leaves) = page_id

abbrev pub IsLinked : List Leaf → Type 0
IsLinked [] = Unit {0}
IsLinked ((page_id, page) ∷ leaves) =
    (0 < page_id) × (page.right_sibling_page_id ≡ first_id leaves) × IsLinked leaves

-- What the readers rely on of a page store: in a valid state a page that is there is fetched, and
-- that changes no page and not the meta page.
pub record Reads {S : Type 0} (store : PageStore S) : Type 1 where
  pub IsValid : S → Type 0
  pub view : S → ℕ → Option TreePage
  pub fetch_lem :
      (page_id : ℕ) (page : TreePage) (s : S)
      → IsValid s
      → view s page_id ≡ some page
      → (s' : S) × (store.fetch page_id s ≡ ok (page, s'))
        × IsValid s'
        × (view s' ≡ view s)
        × (store.get_meta s' ≡ store.get_meta s)

-- A tree in a page store, with room for its height and its leaves below the next page ID.
pub record Stored {S : Type 0} {store : PageStore S} (reads : Reads store) (s : S)
    (leaves : List Leaf) : Type 0 where
  pub meta : MetaPage
  pub height : ℕ
  pub is_valid : reads.IsValid s
  pub has_meta : store.get_meta s ≡ ok meta
  pub holds : Holds (reads.view s) height meta.root_page_id leaves
  pub is_sorted : IsSorted (items leaves)
  pub height_fits : height ≤ meta.next_page_id
  pub leaves_fit : length leaves ≤ meta.next_page_id
