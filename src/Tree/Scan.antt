-- ===== src/Tree/Scan.antt =====
-- `scan` of src/bptreedb/tree.py. The generator is a state, and `next` runs it to its next `yield`. The
-- slots that it has still to go through are those of the page when it came there: `DB.scan` hands in a
-- version check that raises before a changed page could be seen.
use bptreedb.Prelude.{
  ℕ, zero, suc, Bool, true, false, not, Option, none, some, List, [], ◌∷◌, ltb, if◌then◌else◌, drop,
}
use bptreedb.Exceptions.{Result, ok, err, out_of_rounds, ◌>>=◌, ◌>>◌}
use bptreedb.Struct.{Bytes}
use bptreedb.Keys.{lt_bytes}
use bptreedb.Entities.{LeafSlot}
use bptreedb.Codec.Sizes.{LeafSlot-Slot}
use bptreedb.Tree.Slots.{bisect_left}
use bptreedb.Tree.Store.{PageStore, as_leaf}
use bptreedb.Tree.Descent.{find_leaf}

-- The rest of the page at hand, the page behind it (0 for none), and whether the generator stands
-- behind a `yield`, where it checks the version first.
pub record Cursor : Type 0 where
  pub slots : List LeafSlot
  pub right_sibling_page_id : ℕ
  pub has_yielded : Bool

-- A generator that has not run yet, one that stands at a cursor, and one that has returned.
pub data Scan : Type 0 where
  unstarted : Option Bytes → Scan
  running : Cursor → Scan
  returned : Scan

-- `end_key_exclusive is not None and slot.key >= end_key_exclusive`
unfoldable pub is_at_end : Option Bytes → Bytes → Bool
is_at_end none key = false
is_at_end (some end_key) key = not (lt_bytes key end_key)

-- `start_key_inclusive or b""`
abbrev pub or_empty : Option Bytes → Bytes
or_empty none = []
or_empty (some key) = key

module _ {S : Type 0} ⦃store : PageStore S⦄ (end_key : Option Bytes)
    (check : Result (Unit {0})) where
  -- What `next` hands out, with the generator behind it.
  unfoldable pub offer : LeafSlot → List LeafSlot → ℕ → S → Result (Option LeafSlot × Scan × S)
  offer slot rest right s = if is_at_end end_key slot.key then ok (none, returned, s) else (do
    check
    ok (
      some slot,
      running (record { slots = rest; right_sibling_page_id = right; has_yielded = true }),
      s,
    ))

  -- The `while True` loop up to a `yield` or the `return`; the number of pages bounds its rounds.
  unfoldable pub advance : ℕ → List LeafSlot → ℕ → S → Result (Option LeafSlot × Scan × S)
  unfolding offer
  advance rounds (slot ∷ rest) right s = offer slot rest right s
  advance zero [] right s = if ltb 0 right then err out_of_rounds else ok (none, returned, s)
  advance (suc rounds) [] right s =
      let follow = λ (go : List LeafSlot → ℕ → S → Result (Option LeafSlot × Scan × S)). do
        (fetched, s') ← store.fetch right s
        page ← as_leaf fetched
        go page.slots page.right_sibling_page_id s'
      in if ltb 0 right then follow (advance rounds) else ok (none, returned, s)

  unfoldable pub next : Scan → S → Result (Option LeafSlot × Scan × S)
  unfolding advance
  next returned s = ok (none, returned, s)
  next (running c) s = do
    if c.has_yielded then check else ok tt
    m ← store.get_meta s
    advance m.next_page_id c.slots c.right_sibling_page_id s
  next (unstarted start_key) s = do
    let start = or_empty start_key
    (found, s') ← find_leaf start s
    m ← store.get_meta s'
    let page = found.leaf_page
    advance m.next_page_id (drop (bisect_left page.slots start) page.slots)
        page.right_sibling_page_id s'

  -- `list(tree.scan(...))`, with a bound on the number of items.
  unfoldable pub collect : ℕ → Scan → S → Result (List LeafSlot × S)
  collect zero g s = err out_of_rounds
  collect (suc count) g s = do
    (item, g', s') ← next g s
    elim item [
      | none ↦ ok ([], s')
      | some slot ↦ do (slots, s'') ← collect count g' s'; ok (slot ∷ slots, s'')
    ]
