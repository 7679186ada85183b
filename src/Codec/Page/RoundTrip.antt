-- ===== src/Codec/Page/RoundTrip.antt =====
-- `encode_page` and `decode_page` of src/bptreedb/codec.py on each other's results.
use bptreedb.Prelude.{
  ℕ, ◌+◌, ◌*◌, ◌≤◌, ◌<◌, ◌^◌, ◌≡◌, refl, sym, ap, ◌∙◌, List, [], ◌∷◌, ◌++◌, arith, length,
  length-append, append_assoc, append-nil, All, replicate, length-replicate,
}
use bptreedb.Exceptions.{ok}
use bptreedb.Struct.{Bytes}
use bptreedb.Entities.{
  InternalSlot, InternalPage, LeafSlot, LeafPage, FreelistPage, leaf, internal, Page, tree,
  freelist,
}
use bptreedb.Struct.RoundTrip.{pack_fits}
use bptreedb.Codec.{BufferReader, reader_of, page_id_field, write_struct}
use bptreedb.Codec.Buffer.{Reads, Reads-head, Reads-advance, read_struct-pack, advance}
use bptreedb.Codec.Sizes.{
  LeafSlot-Slot, InternalSlot-Slot, body_size, calculate_page_size, calculate_page_size_lem,
  get_max_freed_ids_per_freelist_page,
}
use bptreedb.Codec.Page.{
  page_internal, page_leaf, page_freelist, write_page_ids, read_page_ids, encode_page,
  decode_by_page_type, decode_page,
}
use bptreedb.Codec.Page.Records.{records_size}
use bptreedb.Codec.Page.Header.{finish_page-Finished, leaf_codec, internal_codec}
use bptreedb.Codec.Page.Slotted.{Slotted-of}

-- The pages that can be encoded: their slots or IDs fit on the page, and their numbers in their fields.
pub record FitsLeaf (page_size_bytes : ℕ) (page : LeafPage) : Type 0 where
  pub small : page_size_bytes < 2 ^ 32
  pub lsn_fits : page.last_modified_lsn < 2 ^ 64
  pub sibling_fits : page.right_sibling_page_id < 2 ^ 64
  pub slots_fit : calculate_page_size page.slots ≤ page_size_bytes

pub record FitsInternal (page_size_bytes : ℕ) (page : InternalPage) : Type 0 where
  pub small : page_size_bytes < 2 ^ 32
  pub lsn_fits : page.last_modified_lsn < 2 ^ 64
  pub child_fits : page.leftmost_child_page_id < 2 ^ 64
  pub children_fit : All (λ (s : InternalSlot). s.child_page_id < 2 ^ 64) page.slots
  pub slots_fit : calculate_page_size page.slots ≤ page_size_bytes

pub record FitsFreelist (page_size_bytes : ℕ) (page : FreelistPage) : Type 0 where
  pub small : page_size_bytes < 2 ^ 32
  pub room : 32 ≤ page_size_bytes
  pub lsn_fits : page.last_modified_lsn < 2 ^ 64
  pub next_fits : page.next_freelist_page_id < 2 ^ 64
  pub page_ids_fit : All (λ (i : ℕ). i < 2 ^ 64) page.freed_page_ids
  pub count_fits : length page.freed_page_ids ≤ get_max_freed_ids_per_freelist_page page_size_bytes

abbrev pub FitsPage : ℕ → Page → Type 0
FitsPage n (tree (leaf page)) = FitsLeaf n page
FitsPage n (tree (internal page)) = FitsInternal n page
FitsPage n (freelist page) = FitsFreelist n page

leaf_fits :
    (slots : List LeafSlot) (n : ℕ)
    → body_size slots ≤ n
    → n < 2 ^ 32
    → All leaf_codec.FitsRecord slots
      × (8 * length slots + records_size leaf_codec slots ≡ body_size slots)
unfolding body_size records_size
leaf_fits [] n le small = (tt, refl)
leaf_fits (s ∷ slots) n le small =
    let (fit, e) = leaf_fits slots n (omega (arith, le)) small in
    (((omega (arith, le, small), omega (arith, le, small)), fit), omega (arith, e))

internal_fits :
    (slots : List InternalSlot) (n : ℕ)
    → body_size slots ≤ n
    → n < 2 ^ 32
    → All (λ (s : InternalSlot). s.child_page_id < 2 ^ 64) slots
    → All internal_codec.FitsRecord slots
      × (8 * length slots + records_size internal_codec slots ≡ body_size slots)
unfolding body_size records_size
internal_fits [] n le small children = (tt, refl)
internal_fits (s ∷ slots) n le small children =
    let (fit, e) = internal_fits slots n (omega (arith, le)) small children.1 in
    (((omega (arith, le, small), children.0), fit), omega (arith, e))

-- The array of page IDs.
page_ids_written :
    (ids : List ℕ) (w : Bytes)
    → All (λ (i : ℕ). i < 2 ^ 64) ids
    → (b : Bytes) × (write_page_ids ids w ≡ ok (w ++ b))
      × (length b ≡ 8 * length ids)
      × ((r : BufferReader) (rest : Bytes) → Reads r b rest → read_page_ids (length ids) r ≡ ok ids)
unfolding write_page_ids read_page_ids write_struct
page_ids_written [] w fit = ([], ap ok (sym (append-nil w)), refl, λ r rest h. refl)
page_ids_written (i ∷ ids) w fit =
    let (b, packed, len) = pack_fits page_id_field (i, tt) (fit.0, tt) in
    let (c, written, len', back) = page_ids_written ids (w ++ b) fit.1 in
    (
      b ++ c,
      rw (packed, written) (ap ok (append_assoc w b c)),
      omega (arith, length-append b c, len, len'),
      λ r rest h.
          let first =
            read_struct-pack page_id_field (i, tt) r b (c ++ rest) (tt, tt) packed
              (Reads-head r b c rest h) in
          let later = back (advance 8 r) rest (Reads-advance r 8 b c rest h len) in
          rw (first, later),
    )

-- A leaf or internal page whose slots fit on the page size by `calculate_page_size`, or a freelist
-- page with no more IDs than fit, on a page size below 2^32, with LSN and page IDs below 2^64, is
-- encoded in exactly the page size, and decoded to itself.
pub decode-encode_page :
    (page : Page) (page_size_bytes : ℕ)
    → FitsPage page_size_bytes page
    → (bytes : Bytes) × (encode_page page page_size_bytes ≡ ok bytes)
      × (length bytes ≡ page_size_bytes)
      × (decode_page bytes ≡ ok page)
unfolding encode_page decode_page decode_by_page_type
decode-encode_page (tree (leaf page)) n h =
    let measured = calculate_page_size_lem page.slots in
    let (fit, e) = leaf_fits page.slots n (omega (arith, measured, h.slots_fit)) h.small in
    let s =
      Slotted-of leaf_codec page_leaf page.last_modified_lsn page.right_sibling_page_id page.slots n
        fit h.small (omega (arith, measured, e, h.slots_fit)) (omega arith) h.lsn_fits
        h.sibling_fits in
    (s.bytes, rw (s.placed, s.finished), s.sized, rw (s.header_read, s.slots_read))
decode-encode_page (tree (internal page)) n h =
    let measured = calculate_page_size_lem page.slots in
    let (fit, e) =
      internal_fits page.slots n (omega (arith, measured, h.slots_fit)) h.small h.children_fit in
    let s =
      Slotted-of internal_codec page_internal page.last_modified_lsn page.leftmost_child_page_id
        page.slots n fit h.small (omega (arith, measured, e, h.slots_fit)) (omega arith) h.lsn_fits
        h.child_fits in
    (s.bytes, rw (s.placed, s.finished), s.sized, rw (s.header_read, s.slots_read))
decode-encode_page (freelist page) n h =
    let (b, written, len, back) = page_ids_written page.freed_page_ids [] h.page_ids_fit in
    let zeros = length-replicate {A = ℕ} n 0 in
    let (bytes, finished, f) =
      finish_page-Finished page_freelist (length page.freed_page_ids) 0 0 page.last_modified_lsn
        page.next_freelist_page_id b (replicate n 0)
        (record {
          type_fits = omega arith;
          count_fits = omega (arith, h.count_fits, h.small);
          start_fits = omega arith;
          end_fits = omega arith;
          lsn_fits = h.lsn_fits;
          page_id_fits = h.next_fits;
        })
        (omega (arith, len, zeros, h.count_fits, h.room)) in
    let ids_read = back (advance 32 (reader_of bytes)) f.tail f.reads in
    (bytes, rw (written, finished), f.same_length ∙ zeros, rw (f.header_read, ids_read))
