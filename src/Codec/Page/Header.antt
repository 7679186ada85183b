-- ===== src/Codec/Page/Header.antt =====
-- The header of a page in `encode_page` and `decode_page` of src/bptreedb/codec.py, and the records of
-- the slots.
use bptreedb.Prelude.{
  ℕ, ◌+◌, ◌≤◌, ◌<◌, ◌^◌, ◌≡◌, refl, sym, ap, ◌∙◌, [], ◌∷◌, ◌++◌, arith, length, take, drop,
  length-append, take-append_self,
}
use bptreedb.Exceptions.{ok}
use bptreedb.Struct.{Bytes, Values}
use bptreedb.Struct.RoundTrip.{pack_fits}
use bptreedb.Entities.{InternalSlot, LeafSlot}
use bptreedb.Codec.{
  reader_of, page_header, page_id_field, read_struct, write_struct, write_length_prefixed_bytes,
}
use bptreedb.Codec.Buffer.{
  Reads, Reads-head, Reads-start, Reads-advance, Prefixed, advance, read_struct-pack,
  write_length_prefixed_fits, write_length-Prefixed-eq-ok,
}
use bptreedb.Codec.Page.{
  splice, finish_page, write_internal_record, write_leaf_record, read_internal_record,
  read_leaf_record,
}
use bptreedb.Codec.Page.Splice.{splice-parts, length-splice, drop-splice_at, drop-splice}
use bptreedb.Codec.Page.Records.{RecordCodec}

abbrev pub header_fields : (page_type count start end lsn page_id : ℕ) → Values page_header
header_fields page_type count start end lsn page_id =
    (page_type, (0 ∷ 0 ∷ 0 ∷ [], (count, (start, (end, (lsn, (page_id, tt)))))))

-- The fields of the header fit.
pub record FitsHeader (page_type count start end lsn page_id : ℕ) : Type 0 where
  pub type_fits : page_type < 2 ^ 8
  pub count_fits : count < 2 ^ 32
  pub start_fits : start < 2 ^ 32
  pub end_fits : end < 2 ^ 32
  pub lsn_fits : lsn < 2 ^ 64
  pub page_id_fits : page_id < 2 ^ 64

-- A finished page: its header, what stands behind it, and the old bytes behind that.
pub record Finished (header : Values page_header) (encoded buffer bytes : Bytes) : Type 0 where
  pub same_length : length bytes ≡ length buffer
  pub header_read :
      read_struct page_header (reader_of bytes) ≡ ok (header, advance 32 (reader_of bytes))
  pub tail : Bytes
  pub reads : Reads (advance 32 (reader_of bytes)) encoded tail
  pub same_behind : (k : ℕ) → 32 + length encoded ≤ k → drop k bytes ≡ drop k buffer

pub finish_page-Finished :
    (page_type count start end lsn page_id : ℕ) (encoded buffer : Bytes)
    → FitsHeader page_type count start end lsn page_id
    → 32 + length encoded ≤ length buffer
    → (bytes : Bytes) × (finish_page page_type count start end lsn page_id encoded buffer
        ≡ ok bytes)
      × Finished (header_fields page_type count start end lsn page_id) encoded buffer bytes
unfolding finish_page write_struct
finish_page-Finished page_type count start end lsn page_id encoded buffer fits room =
    let vs = header_fields page_type count start end lsn page_id in
    let (h, packed, len) = pack_fits page_header vs (
      fits.type_fits,
      (
        refl,
        (
          fits.count_fits,
          (fits.start_fits, (fits.end_fits, (fits.lsn_fits, (fits.page_id_fits, tt)))),
        ),
      ),
    ) in
    let first = splice 0 h buffer in
    let first_length : length first ≡ length buffer =
      length-splice 0 h buffer (omega (arith, len, room)) in
    let bytes = splice (length h) encoded first in
    let bytes_length : length bytes ≡ length first =
      length-splice (length h) encoded first (omega (arith, len, room, first_length)) in
    let tail = drop (length h + length encoded) first in
    let front : take (length h) first ≡ h = take-append_self h (drop (0 + length h) buffer) in
    let parts : bytes ≡ h ++ (encoded ++ tail) =
      splice-parts (length h) encoded first ∙ ap (λ xs. xs ++ (encoded ++ tail)) front in
    let behind : drop 32 bytes ≡ encoded ++ tail =
      ap (λ n. drop n bytes) (sym len)
      ∙ drop-splice_at (length h) encoded first (omega (arith, len, room, first_length)) in
    (
      bytes,
      rw packed,
      record {
        same_length = bytes_length ∙ first_length;
        header_read =
            read_struct-pack page_header vs (reader_of bytes) h (encoded ++ tail)
              (tt, (refl, (tt, (tt, (tt, (tt, (tt, tt))))))) packed
              (record { ahead = parts; inside = omega arith });
        tail = tail;
        reads = record { ahead = behind; inside = omega (arith, bytes_length, first_length, room) };
        same_behind = λ k le.
            drop-splice (length h) k encoded first (omega (arith, len, room, first_length))
              (omega (arith, len, le))
            ∙ drop-splice 0 k h buffer (omega arith) (omega (arith, len, le));
      },
    )

-- A length-prefixed value that fits is written, and read back.
prefixed :
    (value w : Bytes)
    → length value < 2 ^ 32
    → (b : Bytes) × (write_length_prefixed_bytes value w ≡ ok (w ++ b)) × Prefixed value b
prefixed value w fits =
    let (b, e, len) = write_length_prefixed_fits value w fits in
    let (b', same, p) = write_length-Prefixed-eq-ok value w e in (b', e ∙ ap ok same, p)

pub leaf_round_trip :
    (s : LeafSlot)
    → (length s.key < 2 ^ 32) × (length s.value < 2 ^ 32)
    → (b : Bytes) × (write_leaf_record s ≡ ok b)
      × (length b ≡ 8 + length s.key + length s.value)
      × (read_leaf_record b ≡ ok s)
unfolding write_leaf_record read_leaf_record
leaf_round_trip s fits =
    let (b, e, p) = prefixed s.key [] fits.0 in
    let (c, e', p') = prefixed s.value b fits.1 in
    let start : Reads (reader_of (b ++ c)) (b ++ c) [] = Reads-start (b ++ c) (b ++ c) refl in
    let key_read =
      p.read_back (reader_of (b ++ c)) (c ++ []) (Reads-head (reader_of (b ++ c)) b c [] start) in
    let value_read =
      p'.read_back (advance (4 + length s.key) (reader_of (b ++ c))) []
        (Reads-advance (reader_of (b ++ c)) (4 + length s.key) b c [] start p.counted) in
    (
      b ++ c,
      rw (e, e'),
      omega (arith, length-append b c, p.counted, p'.counted),
      rw (key_read, value_read),
    )

pub internal_round_trip :
    (s : InternalSlot)
    → (length s.key < 2 ^ 32) × (s.child_page_id < 2 ^ 64)
    → (b : Bytes) × (write_internal_record s ≡ ok b)
      × (length b ≡ 12 + length s.key)
      × (read_internal_record b ≡ ok s)
unfolding write_internal_record read_internal_record
internal_round_trip s fits =
    let (b, e, p) = prefixed s.key [] fits.0 in
    let (c, packed, len) = pack_fits page_id_field (s.child_page_id, tt) (fits.1, tt) in
    let written : write_struct page_id_field (s.child_page_id, tt) b ≡ ok (b ++ c) =
      unfold write_struct in rw packed in
    let start : Reads (reader_of (b ++ c)) (b ++ c) [] = Reads-start (b ++ c) (b ++ c) refl in
    let key_read =
      p.read_back (reader_of (b ++ c)) (c ++ []) (Reads-head (reader_of (b ++ c)) b c [] start) in
    let id_read =
      read_struct-pack page_id_field (s.child_page_id, tt)
        (advance (4 + length s.key) (reader_of (b ++ c))) c [] (tt, tt) packed
        (Reads-advance (reader_of (b ++ c)) (4 + length s.key) b c [] start p.counted) in
    (
      b ++ c,
      rw (e, written),
      omega (arith, length-append b c, p.counted, len),
      rw (key_read, id_read),
    )

abbrev pub leaf_codec : RecordCodec LeafSlot
leaf_codec = record {
  write_record = write_leaf_record;
  read_record = read_leaf_record;
  record_size = λ s. 8 + length s.key + length s.value;
  FitsRecord = λ s. (length s.key < 2 ^ 32) × (length s.value < 2 ^ 32);
  round_trip = leaf_round_trip;
}

abbrev pub internal_codec : RecordCodec InternalSlot
internal_codec = record {
  write_record = write_internal_record;
  read_record = read_internal_record;
  record_size = λ s. 12 + length s.key;
  FitsRecord = λ s. (length s.key < 2 ^ 32) × (s.child_page_id < 2 ^ 64);
  round_trip = internal_round_trip;
}
