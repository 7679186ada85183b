-- ===== src/Tree/Content/Collect.antt =====
-- A whole `scan` of src/bptreedb/tree.py on a stored tree.
use bptreedb.Prelude.{
  ℕ, ◌≤◌, ◌<◌, ◌≡◌, sym, ap, ◌∙◌, Option, List, [], ◌∷◌, ◌++◌, arith, length, length-append,
  length-drop, drop,
}
use bptreedb.Exceptions.{ok}
use bptreedb.Struct.{Bytes}
use bptreedb.Entities.{MetaPage, LeafSlot, LeafPage}
use bptreedb.Codec.Sizes.{LeafSlot-Slot}
use bptreedb.Tree.Slots.{bisect_left}
use bptreedb.Tree.Slots.Order.{IsSorted}
use bptreedb.Tree.Store.{PageStore}
use bptreedb.Tree.Descent.{LeafSearchResult, find_leaf}
use bptreedb.Tree.Scan.{unstarted, or_empty, advance, next, collect}
use bptreedb.Tree.Content.{Leaf, items, IsLinked, first_id, Reads, Stored}
use bptreedb.Tree.Content.Links.{Seen, Holds-Seen, IsLinked-back, Seen-back}
use bptreedb.Tree.Content.Leaves.{collect-Ahead}
use bptreedb.Tree.Content.Between.{Around}
use bptreedb.Tree.Content.Parts.{items-Around, items-one, IsSorted-front, IsSorted-back}
use bptreedb.Tree.Content.Search.{find_leaf-Reached, Stored-same}
use bptreedb.Tree.Content.Range.{from, until, in_range, until-from, drop-bisect_left, from-parts}

parts_of :
    (key : Bytes) (leaves front back : List Leaf) (page_id : ℕ) (page : LeafPage)
    → Around key leaves front ((page_id, page) ∷ []) back
    → items leaves ≡ items front ++ (page.slots ++ items back)
parts_of key leaves front back page_id page around =
    items-Around key leaves front ((page_id, page) ∷ []) back around
    ∙ ap (λ (zs : List LeafSlot). items front ++ (zs ++ items back)) (items-one page_id page)

rest_fits :
    (leaves front back : List Leaf) (e : Leaf) (n : ℕ)
    → leaves ≡ front ++ (e ∷ [] ++ back)
    → length leaves ≤ n
    → length back ≤ n
rest_fits leaves front back e n parts fits =
    omega (arith, fits, ap length parts, length-append front (e ∷ back))

slots_fit :
    (key : Bytes) (leaves front back : List Leaf) (page_id : ℕ) (page : LeafPage) (count : ℕ)
    → Around key leaves front ((page_id, page) ∷ []) back
    → length (items leaves) < count
    → length (drop (bisect_left page.slots key) page.slots ++ items back) < count
slots_fit key leaves front back page_id page count around fits = omega (
  arith,
  fits,
  ap length (parts_of key leaves front back page_id page around),
  length-append (items front) (page.slots ++ items back),
  length-append page.slots (items back),
  length-append (drop (bisect_left page.slots key) page.slots) (items back),
  length-drop (bisect_left page.slots key) page.slots,
)

start_of :
    (key : Bytes) (end : Option Bytes) (leaves front back : List Leaf) (page_id : ℕ)
    (page : LeafPage)
    → IsSorted (items leaves)
    → Around key leaves front ((page_id, page) ∷ []) back
    → until end (drop (bisect_left page.slots key) page.slots ++ items back)
      ≡ in_range key end (items leaves)
start_of key end leaves front back page_id page sorted around =
    let parts = parts_of key leaves front back page_id page around in
    let sorted' : IsSorted (items front ++ (page.slots ++ items back)) = rw parts at sorted in
    let sorted_page : IsSorted page.slots =
      IsSorted-front page.slots (items back)
        (IsSorted-back (items front) (page.slots ++ items back) sorted') in
    ap (λ (zs : List LeafSlot). until end (zs ++ items back))
      (drop-bisect_left key page.slots sorted_page)
    ∙ ap (until end)
        (sym (from-parts key (items front) page.slots (items back) around.below around.above))
    ∙ ap (λ zs. until end (from key zs)) (sym parts)
    ∙ until-from key end (items leaves) sorted

module _ {S : Type 0} ⦃store : PageStore S⦄ (reads : Reads store) where
  next-unstarted :
      (start : Option Bytes) (end : Option Bytes) (m : MetaPage) (r : LeafSearchResult) (s s' : S)
      (right : ℕ)
      → find_leaf (or_empty start) s ≡ ok (r, s')
      → store.get_meta s' ≡ ok m
      → r.leaf_page.right_sibling_page_id ≡ right
      → next end (ok tt) (unstarted start) s
        ≡ advance end
            (ok tt)
            m.next_page_id
            (drop (bisect_left r.leaf_page.slots (or_empty start)) r.leaf_page.slots)
            right
            s'
  unfolding next
  next-unstarted start end m r s s' right found has_meta e = rw (found, has_meta, e)

  -- On a valid page store that holds a tree whose leaves are sorted under separators, with a
  -- height and a number of leaves that are not above the next page ID, and are linked by positive
  -- page IDs, with a version check that passes and more rounds than there are items: running the
  -- generator of `scan` to its end yields exactly the items with a key from the start on and below
  -- the end, in order, and ends; no start is the empty key, and no end is no bound. The store
  -- holds the same tree afterwards.
  pub scan-Stored :
      (start end : Option Bytes) (s : S) (leaves : List Leaf) (count : ℕ)
      → Stored reads s leaves
      → IsLinked leaves
      → length (items leaves) < count
      → (s' : S) × (collect end (ok tt) count (unstarted start) s
          ≡ ok (in_range (or_empty start) end (items leaves), s'))
        × Stored reads s' leaves
  scan-Stored start end s leaves count h linked fits =
      let (r, s₁, found, reached) = find_leaf-Reached reads (or_empty start) s leaves h in
      let key = or_empty start in
      let page = r.leaf_page in
      let around = reached.around in
      let linked' : IsLinked ((r.leaf_page_id, page) ∷ reached.back) =
        IsLinked-back reached.front _ (rw around.parts at linked) in
      let seen : Seen (reads.view s) ((r.leaf_page_id, page) ∷ reached.back) =
        Seen-back (reads.view s) reached.front _ (
          rw around.parts at
            (Holds-Seen (reads.view s) h.height h.meta.root_page_id leaves h.holds)) in
      let has_meta : store.get_meta s₁ ≡ ok h.meta = reached.same_meta ∙ h.has_meta in
      let run =
        next-unstarted start end h.meta r s s₁ (first_id reached.back) found has_meta linked'.1 in
      let (s', collected, same) =
        collect-Ahead reads end count (unstarted start) h.meta s s₁
          (drop (bisect_left page.slots key) page.slots) reached.back run has_meta
          (record {
            is_valid = reached.is_valid;
            seen = rw reached.same_view seen.1;
            is_linked = linked'.2;
            enough =
                rest_fits leaves reached.front reached.back (r.leaf_page_id, page)
                  h.meta.next_page_id around.parts h.leaves_fit;
          })
          (slots_fit key leaves reached.front reached.back r.leaf_page_id page count around fits) in
      let range =
        start_of key end leaves reached.front reached.back r.leaf_page_id page h.is_sorted around in
      (
        s',
        rw (← range) collected,
        Stored-same reads s s' leaves h same.is_valid (same.same_view ∙ reached.same_view)
            (same.same_meta ∙ reached.same_meta),
      )
