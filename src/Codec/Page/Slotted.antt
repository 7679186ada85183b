-- ===== src/Codec/Page/Slotted.antt =====
-- A page of src/bptreedb/codec.py with a slot directory, encoded and read again.
use bptreedb.Prelude.{
  ℕ, ◌+◌, ◌*◌, ◌≤◌, ◌<◌, ◌^◌, ◌≡◌, ap, ◌∙◌, List, arith, length, All, length-replicate,
}
use bptreedb.Exceptions.{ok}
use bptreedb.Struct.{Bytes}
use bptreedb.Codec.{reader_of, page_header, read_struct}
use bptreedb.Codec.Buffer.{advance}
use bptreedb.Codec.Sizes.{LeafSlot-Slot, InternalSlot-Slot}
use bptreedb.Codec.Page.{Layout, empty_layout, place_records, finish_page, read_slots}
use bptreedb.Codec.Page.Records.{RecordCodec, records_size, place_records-Placed}
use bptreedb.Codec.Page.Header.{header_fields, finish_page-Finished}

module _ {A : Type 0} (codec : RecordCodec A) (page_type lsn page_id : ℕ) where
  -- A page with a slot directory, encoded.
  pub record Slotted (slots : List A) (page_size_bytes : ℕ) : Type 0 where
    pub layout : Layout
    pub bytes : Bytes
    pub placed : place_records codec.write_record slots (empty_layout page_size_bytes) ≡ ok layout
    pub finished :
        finish_page page_type
          (length slots)
          (32 + 8 * length slots)
          layout.record_end_ptr
          lsn
          page_id
          layout.directory
          layout.buffer
        ≡ ok bytes
    pub sized : length bytes ≡ page_size_bytes
    pub header_read :
        read_struct page_header (reader_of bytes)
        ≡ ok (
          header_fields page_type
              (length slots)
              (32 + 8 * length slots)
              layout.record_end_ptr
              lsn
              page_id,
          advance 32 (reader_of bytes),
        )
    pub slots_read :
        read_slots codec.read_record (length slots) (advance 32 (reader_of bytes)) ≡ ok slots

  pub Slotted-of :
      (slots : List A) (page_size_bytes : ℕ)
      → All codec.FitsRecord slots
      → page_size_bytes < 2 ^ 32
      → 32 + 8 * length slots + records_size codec slots ≤ page_size_bytes
      → page_type < 2 ^ 8
      → lsn < 2 ^ 64
      → page_id < 2 ^ 64
      → Slotted slots page_size_bytes
  Slotted-of slots n fit small room type_fits lsn_fits page_id_fits =
      let zeros = length-replicate {A = ℕ} n 0 in
      let (l, placed, p) =
        place_records-Placed codec slots (empty_layout n) fit small (omega (arith, zeros))
          (omega (arith, room)) in
      let entries : l.directory ≡ p.entries = p.directory in
      let (bytes, finished, f) =
        finish_page-Finished page_type (length slots) (32 + 8 * length slots) l.record_end_ptr lsn
          page_id l.directory l.buffer
          (record {
            type_fits = type_fits;
            count_fits = omega (arith, small, room);
            start_fits = omega (arith, small, room);
            end_fits = omega (arith, small, p.lower);
            lsn_fits = lsn_fits;
            page_id_fits = page_id_fits;
          })
          (omega (arith, ap length entries, p.sized, p.same_length, zeros, room)) in
      record {
        layout = l;
        bytes = bytes;
        placed = placed;
        finished = finished;
        sized = f.same_length ∙ p.same_length ∙ zeros;
        header_read = f.header_read;
        slots_read = p.read_back (advance 32 (reader_of bytes)) f.tail (rw (← entries) f.reads) (
            f.same_behind l.record_end_ptr
              (omega (arith, ap length entries, p.sized, p.lower, room)));
      }
