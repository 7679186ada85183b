-- ===== src/Tree/Content/Search.antt =====
-- `_find_leaf` and `search` of src/bptreedb/tree.py on a stored tree.
use bptreedb.Prelude.{
  ℕ, zero, suc, ◌≤◌, ◌≡◌, refl, ap, ◌∙◌, Option, some, List, [], ◌∷◌, ◌++◌, arith,
}
use bptreedb.Exceptions.{ok}
use bptreedb.Struct.{Bytes}
use bptreedb.Entities.{LeafPage, InternalPage, TreePage, leaf, internal}
use bptreedb.Codec.Sizes.{LeafSlot-Slot, InternalSlot-Slot}
use bptreedb.Tree.Slots.{route}
use bptreedb.Tree.Slots.Order.{IsSorted}
use bptreedb.Tree.Slots.Lookup.{lookup}
use bptreedb.Tree.Slots.Route.{walk, route-walk}
use bptreedb.Tree.Store.{PageStore}
use bptreedb.Tree.Descent.{PathItem, LeafSearchResult, step, child_of, descend, find_leaf, search}
use bptreedb.Tree.Content.{Leaf, items, Holds, Spread, Reads, Stored}
use bptreedb.Tree.Content.Between.{Around, Spread-walk}
use bptreedb.Tree.Content.Parts.{Around-trans, leaf_lookup}

child_of-walk :
    (page : InternalPage) (key : Bytes)
    → IsSorted page.slots
    → child_of page key ≡ ok (walk page.leftmost_child_page_id page.slots key)
unfolding child_of route
child_of-walk page key h = rw (route-walk page key h, child_of)

Holds-view :
    (view : ℕ → Option TreePage) (height page_id : ℕ) (leaves : List Leaf)
    → Holds view height page_id leaves
    → (page : TreePage) × (view page_id ≡ some page)
Holds-view view zero page_id leaves (page, at, _) = (leaf page, at)
Holds-view view (suc height) page_id leaves (page, at, _, _) = (internal page, at)

module _ {S : Type 0} ⦃store : PageStore S⦄ (reads : Reads store) where
  -- What a descent leads to: a leaf to which the key belongs, in a state with the same pages.
  pub record Reached (s : S) (leaves : List Leaf) (key : Bytes) (r : LeafSearchResult) (s' : S)
      : Type 0 where
    pub front : List Leaf
    pub back : List Leaf
    pub around : Around key leaves front ((r.leaf_page_id, r.leaf_page) ∷ []) back
    pub is_valid : reads.IsValid s'
    pub same_view : reads.view s' ≡ reads.view s
    pub same_meta : store.get_meta s' ≡ store.get_meta s

  descend-Reached :
      (height rounds page_id : ℕ) (page : TreePage) (key : Bytes) (path : List PathItem) (s : S)
      (leaves : List Leaf)
      → reads.IsValid s
      → Holds (reads.view s) height page_id leaves
      → reads.view s page_id ≡ some page
      → height ≤ rounds
      → (r : LeafSearchResult) × (s' : S) × (descend rounds page_id page key path s ≡ ok (r, s'))
        × Reached s leaves key r s'
  unfolding descend items
  descend-Reached zero rounds page_id (leaf page) key path s leaves v (page', at, e) here le =
      let same : page' ≡ page = cc (at, here) in
      (
        record { leaf_page_id = page_id; leaf_page = page; path = path },
        s,
        refl,
        record {
          front = [];
          back = [];
          around = record {
            parts = e ∙ ap (λ (q : LeafPage). (page_id, q) ∷ []) same;
            below = tt;
            above = tt;
          };
          is_valid = v;
          same_view = refl;
          same_meta = refl;
        },
      )
  descend-Reached zero rounds page_id (internal page) key path s leaves v (page', at, e) here le =
      cc
  descend-Reached (suc height) zero page_id page key path s leaves v h here le = elim le [ ]
  descend-Reached (suc height) (suc rounds) page_id (leaf page) key path s leaves v
        (page', at, sorted, spread) here le =
      cc
  descend-Reached (suc height) (suc rounds) page_id (internal page) key path s leaves v
        (page', at, sorted, spread) here le =
      let same : page' ≡ page = cc (at, here) in
      let child = walk page.leftmost_child_page_id page.slots key in
      let sorted' : IsSorted page.slots = rw same at sorted in
      let spread' : Spread (Holds (reads.view s) height) page.leftmost_child_page_id page.slots
          leaves =
        rw same at spread in
      let (f, m, b, holds, around) =
        Spread-walk (Holds (reads.view s) height) key page.leftmost_child_page_id page.slots leaves
          spread' in
      let (next, there) = Holds-view (reads.view s) height child m holds in
      let (s₁, fetched, v₁, same_view, same_meta) = reads.fetch_lem child next s v there in
      let holds₁ : Holds (reads.view s₁) height child m = rw (← same_view) at holds in
      let there₁ : reads.view s₁ child ≡ some next = ap (λ w. w child) same_view ∙ there in
      let (r, s₂, descended, reached) =
        descend-Reached height rounds child next key (step page_id page key path) s₁ m v₁ holds₁
          there₁ (omega (arith, le)) in
      (
        r,
        s₂,
        rw (child_of-walk page key sorted', fetched) descended,
        record {
          front = f ++ reached.front;
          back = reached.back ++ b;
          around =
              Around-trans key leaves f m b reached.front ((r.leaf_page_id, r.leaf_page) ∷ [])
                reached.back around reached.around;
          is_valid = reached.is_valid;
          same_view = reached.same_view ∙ same_view;
          same_meta = reached.same_meta ∙ same_meta;
        },
      )

  pub find_leaf-Reached :
      (key : Bytes) (s : S) (leaves : List Leaf)
      → Stored reads s leaves
      → (r : LeafSearchResult) × (s' : S) × (find_leaf key s ≡ ok (r, s'))
        × Reached s leaves key r s'
  unfolding find_leaf
  find_leaf-Reached key s leaves h =
      let (page, there) = Holds-view (reads.view s) h.height h.meta.root_page_id leaves h.holds in
      let (s₁, fetched, v₁, same_view, same_meta) =
        reads.fetch_lem h.meta.root_page_id page s h.is_valid there in
      let holds₁ : Holds (reads.view s₁) h.height h.meta.root_page_id leaves =
        rw same_view h.holds in
      let there₁ : reads.view s₁ h.meta.root_page_id ≡ some page =
        ap (λ w. w h.meta.root_page_id) same_view ∙ there in
      let (r, s₂, descended, reached) =
        descend-Reached h.height h.meta.next_page_id h.meta.root_page_id page key [] s₁ leaves v₁
          holds₁ there₁ h.height_fits in
      (
        r,
        s₂,
        rw (h.has_meta, fetched) descended,
        record {
          front = reached.front;
          back = reached.back;
          around = reached.around;
          is_valid = reached.is_valid;
          same_view = reached.same_view ∙ same_view;
          same_meta = reached.same_meta ∙ same_meta;
        },
      )

  pub Stored-same :
      (s s' : S) (leaves : List Leaf)
      → Stored reads s leaves
      → reads.IsValid s'
      → reads.view s' ≡ reads.view s
      → store.get_meta s' ≡ store.get_meta s
      → Stored reads s' leaves
  Stored-same s s' leaves h v same_view same_meta = record {
    meta = h.meta;
    height = h.height;
    is_valid = v;
    has_meta = same_meta ∙ h.has_meta;
    holds = rw same_view h.holds;
    is_sorted = h.is_sorted;
    height_fits = h.height_fits;
    leaves_fit = h.leaves_fit;
  }

  -- Where the page store is valid and holds a tree whose leaves are sorted under separators, with
  -- a height and a number of leaves that are not above the next page ID: `search` ends without an
  -- exception, and returns the value that stands under the key in the list of all items, or none
  -- where the key is not there; the store holds the same tree afterwards.
  pub search-Stored :
      (key : Bytes) (s : S) (leaves : List Leaf)
      → Stored reads s leaves
      → (s' : S) × (search key s ≡ ok (lookup (items leaves) key, s')) × Stored reads s' leaves
  unfolding search
  search-Stored key s leaves h =
      let (r, s', found, reached) = find_leaf-Reached key s leaves h in
      let answer =
        leaf_lookup key leaves reached.front reached.back r.leaf_page_id r.leaf_page h.is_sorted
          reached.around in
      (
        s',
        rw (found, answer),
        Stored-same s s' leaves h reached.is_valid reached.same_view reached.same_meta,
      )
