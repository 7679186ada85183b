-- ===== src/Tree/Content/Leaves.antt =====
-- `scan` of src/bptreedb/tree.py on a stored tree: the walk along the linked leaves.
use bptreedb.Prelude.{
  ℕ, zero, suc, ◌≤◌, ◌<◌, ◌≡◌, refl, ap, ◌∙◌, true, false, Option, none, some, List, [], ◌∷◌, ◌++◌,
  arith, length, ltb, lt→ltb, ◌⊎◌, Bool-cases, inl, inr,
}
use bptreedb.Exceptions.{ok}
use bptreedb.Struct.{Bytes}
use bptreedb.Entities.{MetaPage, LeafSlot, LeafPage, leaf}
use bptreedb.Codec.Sizes.{LeafSlot-Slot}
use bptreedb.Tree.Store.{PageStore, as_leaf}
use bptreedb.Tree.Scan.{Scan, running, returned, is_at_end, offer, advance, next, collect}
use bptreedb.Tree.Content.{Leaf, items, IsLinked, first_id, Reads}
use bptreedb.Tree.Content.Links.{Seen}
use bptreedb.Tree.Content.Range.{until}

module _ {S : Type 0} ⦃store : PageStore S⦄ (reads : Reads store) (end : Option Bytes) where
  pub record Same (s s' : S) : Type 0 where
    pub is_valid : reads.IsValid s'
    pub same_view : reads.view s' ≡ reads.view s
    pub same_meta : store.get_meta s' ≡ store.get_meta s

  Same-trans : (s s' s'' : S) → Same s s' → Same s' s'' → Same s s''
  Same-trans s s' s'' h h' = record {
    is_valid = h'.is_valid;
    same_view = h'.same_view ∙ h.same_view;
    same_meta = h'.same_meta ∙ h.same_meta;
  }

  -- The leaves behind a cursor, with enough rounds to go through them.
  pub record Ahead (rounds : ℕ) (s : S) (rest : List Leaf) : Type 0 where
    pub is_valid : reads.IsValid s
    pub seen : Seen (reads.view s) rest
    pub is_linked : IsLinked rest
    pub enough : length rest ≤ rounds

  -- Nothing is left.
  record Ended (rounds : ℕ) (slots : List LeafSlot) (rest : List Leaf) (s : S) : Type 0 where
    pub state : S
    pub empty : slots ++ items rest ≡ []
    pub run : advance end (ok tt) rounds slots (first_id rest) s ≡ ok (none, returned, state)
    pub same : Same s state

  -- The next slot is offered.
  record Offered (rounds : ℕ) (slots : List LeafSlot) (rest : List Leaf) (s : S) : Type 0 where
    pub state : S
    pub slot : LeafSlot
    pub slots' : List LeafSlot
    pub rest' : List Leaf
    pub left : slots ++ items rest ≡ slot ∷ (slots' ++ items rest')
    pub run :
        advance end (ok tt) rounds slots (first_id rest) s
        ≡ offer end (ok tt) slot slots' (first_id rest') state
    pub same : Same s state
    pub ahead : Ahead rounds state rest'

  Ahead-fetch :
      (rounds : ℕ) (s : S) (page_id : ℕ) (page : LeafPage) (rest : List Leaf)
      → Ahead (suc rounds) s ((page_id, page) ∷ rest)
      → (s' : S) × (store.fetch page_id s ≡ ok (leaf page, s')) × Same s s' × Ahead rounds s' rest
  Ahead-fetch rounds s page_id page rest h =
      let (s', fetched, v, same_view, same_meta) =
        reads.fetch_lem page_id (leaf page) s h.is_valid h.seen.0 in
      (
        s',
        fetched,
        record { is_valid = v; same_view = same_view; same_meta = same_meta },
        record {
          is_valid = v;
          seen = rw same_view h.seen.1;
          is_linked = h.is_linked.2;
          enough = omega (arith, h.enough);
        },
      )

  advance-step :
      (rounds : ℕ) (slots : List LeafSlot) (rest : List Leaf) (s : S)
      → Ahead rounds s rest
      → Ended rounds slots rest s ⊎ Offered rounds slots rest s
  unfolding advance items as_leaf
  advance-step rounds (x ∷ slots) rest s h = inr (record {
    state = s;
    slot = x;
    slots' = slots;
    rest' = rest;
    left = refl;
    run = refl;
    same = record { is_valid = h.is_valid; same_view = refl; same_meta = refl };
    ahead = h;
  })
  advance-step zero [] [] s h = inl (record {
    state = s;
    empty = refl;
    run = refl;
    same = record { is_valid = h.is_valid; same_view = refl; same_meta = refl };
  })
  advance-step (suc rounds) [] [] s h = inl (record {
    state = s;
    empty = refl;
    run = refl;
    same = record { is_valid = h.is_valid; same_view = refl; same_meta = refl };
  })
  advance-step zero [] (e ∷ rest) s h = absurd (omega (arith, h.enough))
  advance-step (suc rounds) [] ((page_id, page) ∷ rest) s h =
      let (s', fetched, same, ahead) = Ahead-fetch rounds s page_id page rest h in
      let here : ltb 0 page_id ≡ true = lt→ltb 0 page_id h.is_linked.0 in
      let linked : page.right_sibling_page_id ≡ first_id rest = h.is_linked.1 in
      elim (advance-step rounds page.slots rest s' ahead) [
        | inl e ↦ inl (record {
          state = e.state;
          empty = e.empty;
          run = rw (here, fetched, linked) e.run;
          same = Same-trans s s' e.state same e.same;
        })
        | inr o ↦ inr (record {
          state = o.state;
          slot = o.slot;
          slots' = o.slots';
          rest' = o.rest';
          left = o.left;
          run = rw (here, fetched, linked) o.run;
          same = Same-trans s s' o.state same o.same;
          ahead = record {
            is_valid = o.ahead.is_valid;
            seen = o.ahead.seen;
            is_linked = o.ahead.is_linked;
            enough = omega (arith, o.ahead.enough);
          };
        })
      ]

  Same-refl : (s : S) → reads.IsValid s → Same s s
  Same-refl s v = record { is_valid = v; same_view = refl; same_meta = refl }

  offer-over :
      (x : LeafSlot) (slots : List LeafSlot) (right : ℕ) (s : S)
      → is_at_end end x.key ≡ true
      → offer end (ok tt) x slots right s ≡ ok (none, returned, s)
  unfolding offer
  offer-over x slots right s over = rw over

  offer-more :
      (x : LeafSlot) (slots : List LeafSlot) (right : ℕ) (s : S)
      → is_at_end end x.key ≡ false
      → offer end (ok tt) x slots right s
        ≡ ok (
          some x,
          running (record { slots = slots; right_sibling_page_id = right; has_yielded = true }),
          s,
        )
  unfolding offer
  offer-more x slots right s more = rw more

  next-running :
      (m : MetaPage) (slots : List LeafSlot) (right : ℕ) (s : S)
      → store.get_meta s ≡ ok m
      → next end
          (ok tt)
          (running (record { slots = slots; right_sibling_page_id = right; has_yielded = true }))
          s
        ≡ advance end (ok tt) m.next_page_id slots right s
  unfolding next
  next-running m slots right s has_meta = rw has_meta

  -- From a generator whose next round goes on from the state `s` the rest is collected.
  pub collect-Ahead :
      (count : ℕ) (g : Scan) (m : MetaPage) (s₀ s : S) (slots : List LeafSlot) (rest : List Leaf)
      → next end (ok tt) g s₀ ≡ advance end (ok tt) m.next_page_id slots (first_id rest) s
      → store.get_meta s ≡ ok m
      → Ahead m.next_page_id s rest
      → length (slots ++ items rest) < count
      → (s' : S) × (collect end (ok tt) count g s₀ ≡ ok (until end (slots ++ items rest), s'))
        × Same s s'
  unfolding collect until
  collect-Ahead zero g m s₀ s slots rest run has_meta h fits = absurd (omega (arith, fits))
  collect-Ahead (suc count) g m s₀ s slots rest run has_meta h fits =
      elim (advance-step m.next_page_id slots rest s h) [
        | inl e ↦ (e.state, rw (run, e.run, e.empty), e.same)
        | inr o ↦ elim (Bool-cases (is_at_end end o.slot.key)) [
          | inl over ↦
              (let offered = offer-over o.slot o.slots' (first_id o.rest') o.state over in
                (o.state, rw (run, o.run, offered, o.left, over), o.same))
          | inr more ↦
              (let g' = running (record {
                slots = o.slots';
                right_sibling_page_id = first_id o.rest';
                has_yielded = true;
              }) in
                let offered = offer-more o.slot o.slots' (first_id o.rest') o.state more in
                let fits' : length (o.slots' ++ items o.rest') < count =
                  omega (arith, fits, ap length o.left) in
                let (s', collected, same) =
                  collect-Ahead count g' m o.state o.state o.slots' o.rest'
                    (next-running m o.slots' (first_id o.rest') o.state
                      (o.same.same_meta ∙ has_meta))
                    (o.same.same_meta ∙ has_meta) o.ahead fits' in
                (
                  s',
                  rw (run, o.run, offered, o.left, more, collected),
                  Same-trans s o.state s' o.same same,
                ))
        ]
      ]
