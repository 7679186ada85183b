-- ===== src/Codec/Page.antt =====
-- `PageType`, `encode_page` and `decode_page` of src/bptreedb/codec.py.
pub mod Splice
pub mod Records
pub mod Header
pub mod Slotted
pub mod RoundTrip
use bptreedb.Prelude.{
  ℕ, zero, suc, ◌+◌, ◌-◌, ◌*◌, List, [], ◌∷◌, ◌++◌, ltb, ◌==◌, if◌then◌else◌, length, take, drop,
  replicate,
}
use bptreedb.Exceptions.{Result, ok, err, value_error, struct_error, ◌>>=◌}
use bptreedb.Struct.{Bytes, size}
use bptreedb.Entities.{InternalSlot, LeafSlot, leaf, internal, Page, tree, freelist}
use bptreedb.Codec.{
  BufferReader, reader_of, page_header, slot_entry, page_id_field, read_struct,
  read_length_prefixed_bytes, write_struct, write_length_prefixed_bytes,
}

abbrev pub page_internal : ℕ
page_internal = 0x01

abbrev pub page_leaf : ℕ
page_leaf = 0x02

abbrev pub page_freelist : ℕ
page_freelist = 0x03

-- `buffer[at : at + len(new)] = new` for a `bytearray`.
abbrev pub splice : ℕ → Bytes → Bytes → Bytes
splice at new buffer = take at buffer ++ new ++ drop (at + length new) buffer

unfoldable pub write_internal_record : InternalSlot → Result Bytes
write_internal_record s = do
  w ← write_length_prefixed_bytes s.key []
  write_struct page_id_field (s.child_page_id, tt) w

unfoldable pub write_leaf_record : LeafSlot → Result Bytes
write_leaf_record s = do
  w ← write_length_prefixed_bytes s.key []
  write_length_prefixed_bytes s.value w

-- The buffer, `record_end_ptr` and the slot directory in the loop over the slots.
pub record Layout : Type 0 where
  pub buffer : Bytes
  pub record_end_ptr : ℕ
  pub directory : Bytes

module _ {A : Type 0} (write_record : A → Result Bytes) where
  -- The body of the loop behind the record's encoding. A pointer below 0 does not fit its field.
  unfoldable pub place_record : Layout → Bytes → Result Layout
  place_record l bytes = if ltb l.record_end_ptr (length bytes) then err struct_error else do
    let ptr = l.record_end_ptr - length bytes
    directory ← write_struct slot_entry (ptr, (length bytes, tt)) l.directory
    ok (record { buffer = splice ptr bytes l.buffer; record_end_ptr = ptr; directory = directory })

  unfoldable pub place_records : List A → Layout → Result Layout
  unfolding place_record
  place_records [] l = ok l
  place_records (s ∷ slots) l = do
    bytes ← write_record s
    l' ← place_record l bytes
    place_records slots l'

unfoldable pub write_page_ids : List ℕ → Bytes → Result Bytes
write_page_ids [] w = ok w
write_page_ids (page_id ∷ ids) w = do
  w' ← write_struct page_id_field (page_id, tt) w
  write_page_ids ids w'

-- The end of `encode_page`: the header and what stands behind it are put over the buffer.
unfoldable pub finish_page :
    (page_type count free_space_start free_space_end lsn page_id_field_value : ℕ)
    → Bytes
    → Bytes
    → Result Bytes
finish_page page_type count start end lsn page_id encoded_records buffer = do
  header ←
      write_struct page_header
        (page_type, (0 ∷ 0 ∷ 0 ∷ [], (count, (start, (end, (lsn, (page_id, tt))))))) []
  ok (splice (length header) encoded_records (splice 0 header buffer))

abbrev pub empty_layout : ℕ → Layout
empty_layout page_size_bytes = record {
  buffer = replicate page_size_bytes 0;
  record_end_ptr = page_size_bytes;
  directory = [];
}

unfoldable pub encode_page : Page → ℕ → Result Bytes
encode_page (tree (internal page)) page_size_bytes = do
  l ← place_records write_internal_record page.slots (empty_layout page_size_bytes)
  finish_page page_internal (length page.slots)
      (size page_header + size slot_entry * length page.slots) l.record_end_ptr
      page.last_modified_lsn page.leftmost_child_page_id l.directory l.buffer
encode_page (tree (leaf page)) page_size_bytes = do
  l ← place_records write_leaf_record page.slots (empty_layout page_size_bytes)
  finish_page page_leaf (length page.slots) (size page_header + size slot_entry * length page.slots)
      l.record_end_ptr page.last_modified_lsn page.right_sibling_page_id l.directory l.buffer
encode_page (freelist page) page_size_bytes = do
  ids ← write_page_ids page.freed_page_ids []
  finish_page page_freelist (length page.freed_page_ids) 0 0 page.last_modified_lsn
      page.next_freelist_page_id ids (replicate page_size_bytes 0)

unfoldable pub read_internal_record : Bytes → Result InternalSlot
read_internal_record bytes = do
  (key, r) ← read_length_prefixed_bytes (reader_of bytes)
  (child_page_id, _) ← read_struct page_id_field r
  ok (record { key = key; child_page_id = child_page_id.0 })

unfoldable pub read_leaf_record : Bytes → Result LeafSlot
read_leaf_record bytes = do
  (key, r) ← read_length_prefixed_bytes (reader_of bytes)
  (value, _) ← read_length_prefixed_bytes r
  ok (record { key = key; value = value })

-- The loop over the slot directory.
module _ {A : Type 0} (read_record : Bytes → Result A) where
  unfoldable pub read_slots : ℕ → BufferReader → Result (List A)
  read_slots zero r = ok []
  read_slots (suc count) r = do
    (entry, r') ← read_struct slot_entry r
    s ← read_record (take entry.1.0 (drop entry.0 r.bytes))
    slots ← read_slots count r'
    ok (s ∷ slots)

unfoldable pub read_page_ids : ℕ → BufferReader → Result (List ℕ)
read_page_ids zero r = ok []
read_page_ids (suc count) r = do
  (page_id, r') ← read_struct page_id_field r
  ids ← read_page_ids count r'
  ok (page_id.0 ∷ ids)

-- The cases of the `match`, on the page type, the count, the LSN and the page ID of the header.
unfoldable pub decode_by_page_type : (page_type count lsn page_id : ℕ) → BufferReader → Result Page
decode_by_page_type page_type count lsn page_id r =
    if page_type == page_internal
    then (do
      slots ← read_slots read_internal_record count r
      ok (
          tree (
            internal (record {
              last_modified_lsn = lsn;
              leftmost_child_page_id = page_id;
              slots = slots;
            }))))
    else if page_type == page_leaf
    then (do
      slots ← read_slots read_leaf_record count r
      ok (
          tree (
            leaf (record {
              last_modified_lsn = lsn;
              right_sibling_page_id = page_id;
              slots = slots;
            }))))
    else if page_type == page_freelist
    then (do
      ids ← read_page_ids count r
      ok (
          freelist (record {
            last_modified_lsn = lsn;
            next_freelist_page_id = page_id;
            freed_page_ids = ids;
          })))
    else err value_error

unfoldable pub decode_page : Bytes → Result Page
decode_page bytes = do
  (header, r) ← read_struct page_header (reader_of bytes)
  decode_by_page_type header.0 header.1.1.0 header.1.1.1.1.1.0 header.1.1.1.1.1.1.0 r
