-- ===== src/Codec/Wal/Length.antt =====
-- The records that `encode_wal_record` of src/bptreedb/codec.py accepts, and how long they get.
use bptreedb.Prelude.{ℕ, ◌+◌, ◌<◌, ◌^◌, ◌≡◌, ap, [], ◌++◌, arith, length, length-append}
use bptreedb.Exceptions.{ok, >>=-eq-ok}
use bptreedb.Struct.{Bytes}
use bptreedb.Struct.RoundTrip.{unpack_fields-pack}
use bptreedb.Entities.{WalRecord, put_record, delete_record, checkpoint_record, lsn}
use bptreedb.Codec.{
  uint64_field, length_field, wal_record_header, write_struct, write_length_prefixed_bytes,
}
use bptreedb.Codec.Buffer.{
  write_struct-eq-ok, write_length-Prefixed-eq-ok, write_struct_fits, write_length_prefixed_fits,
  write_crc32_fits,
}
use bptreedb.Codec.Wal.{op_type_of, write_payload, encode_wal_record}
use bptreedb.Codec.Wal.RoundTrip.{encode_wal_record-Layout, length-Layout}

-- The sizes and numbers that the format can hold.
abbrev pub Fits : WalRecord → Type 0
Fits (put_record n key value) = (n < 2 ^ 64) × (length key + length value < 2 ^ 31)
Fits (delete_record n key) = (n < 2 ^ 64) × (length key < 2 ^ 31)
Fits (checkpoint_record n root head next) =
    (n < 2 ^ 64) × (root < 2 ^ 64) × (head < 2 ^ 64) × (next < 2 ^ 64)

abbrev pub payload_size : WalRecord → ℕ
payload_size (put_record n key value) = 4 + length key + (4 + length value)
payload_size (delete_record n key) = 4 + length key
payload_size (checkpoint_record n root head next) = 8 + 8 + 8

write_payload-Fits :
    (r : WalRecord) → Fits r → (p : Bytes) × (write_payload r ≡ ok p) × (length p ≡ payload_size r)
unfolding write_payload
write_payload-Fits (put_record n key value) h =
    let (b, e, len) = write_length_prefixed_fits key [] (omega arith) in
    let (c, e', len') = write_length_prefixed_fits value ([] ++ b) (omega arith) in
    (b ++ c, rw (e, e'), omega (arith, length-append b c, len, len'))
write_payload-Fits (delete_record n key) h = write_length_prefixed_fits key [] (omega arith)
write_payload-Fits (checkpoint_record n root head next) h =
    let (a, ea, la) = write_struct_fits uint64_field (root, tt) [] (h.1, tt) in
    let (b, eb, lb) = write_struct_fits uint64_field (head, tt) ([] ++ a) (h.2, tt) in
    let (c, ec, lc) = write_struct_fits uint64_field (next, tt) (([] ++ a) ++ b) (h.3, tt) in
    (
      (a ++ b) ++ c,
      rw (ea, eb, ec),
      omega (arith, length-append (a ++ b) c, length-append a b, la, lb, lc),
    )

op_type_of-lt : (r : WalRecord) → op_type_of r < 2 ^ 8
op_type_of-lt (put_record n k v) = omega arith
op_type_of-lt (delete_record n k) = omega arith
op_type_of-lt (checkpoint_record n a b c) = omega arith

lsn-lt : (r : WalRecord) → Fits r → (lsn r < 2 ^ 64) × (payload_size r < 2 ^ 31 + 24)
lsn-lt (put_record n k v) h = omega arith
lsn-lt (delete_record n k) h = omega arith
lsn-lt (checkpoint_record n a b c) h = omega arith

-- A record whose LSN and page IDs are below 2^64, and whose key and value have less than 2^31
-- bytes together, is encoded, in 17 bytes and its payload.
pub encode_wal_record-Fits :
    (r : WalRecord)
    → Fits r
    → (bs : Bytes) × (encode_wal_record r ≡ ok bs) × (length bs ≡ 17 + payload_size r)
unfolding encode_wal_record
encode_wal_record-Fits r h =
    let (p, ep, lp) = write_payload-Fits r h in
    let (w, ew, lw) =
      write_struct_fits wal_record_header (lsn r, (op_type_of r, tt)) []
        ((lsn-lt r h).0, (op_type_of-lt r, tt)) in
    let (l, el, ll) =
      write_struct_fits length_field (length w + length p + 4, tt) []
        (omega (arith, lsn-lt r h, lp, lw), tt) in
    let (c, ec, lc) = write_crc32_fits ((l ++ w) ++ p) in
    (
      ((l ++ w) ++ p) ++ c,
      rw (ep, ew, el, ec),
      omega (
        arith,
        length-append ((l ++ w) ++ p) c,
        length-append (l ++ w) p,
        length-append l w,
        lp,
        lw,
        ll,
        lc,
      ),
    )

length-write_payload :
    (r : WalRecord) (p : Bytes) → write_payload r ≡ ok p → length p ≡ payload_size r
unfolding write_payload
length-write_payload (put_record n key value) p h =
    let (w, h₁, h₂) = >>=-eq-ok (write_length_prefixed_bytes key []) _ h in
    let (b, e, pb) = write_length-Prefixed-eq-ok key [] h₁ in
    let (c, e', pc) = write_length-Prefixed-eq-ok value w h₂ in
    omega (arith, ap length e, ap length e', length-append w c, pb.counted, pc.counted)
length-write_payload (delete_record n key) p h =
    let (b, e, pb) = write_length-Prefixed-eq-ok key [] h in omega (arith, ap length e, pb.counted)
length-write_payload (checkpoint_record n root head next) p h =
    let (w, h₁, h') = >>=-eq-ok (write_struct uint64_field (root, tt) []) _ h in
    let (w', h₂, h₃) = >>=-eq-ok (write_struct uint64_field (head, tt) w) _ h' in
    let (a, pa, e₁) = write_struct-eq-ok uint64_field (root, tt) [] h₁ in
    let (b, pb, e₂) = write_struct-eq-ok uint64_field (head, tt) w h₂ in
    let (c, pc, e₃) = write_struct-eq-ok uint64_field (next, tt) w' h₃ in
    omega (
      arith,
      ap length e₁,
      ap length e₂,
      ap length e₃,
      length-append w b,
      length-append w' c,
      (unpack_fields-pack uint64_field (root, tt) (tt, tt) pa).0,
      (unpack_fields-pack uint64_field (head, tt) (tt, tt) pb).0,
      (unpack_fields-pack uint64_field (next, tt) (tt, tt) pc).0,
    )

-- The size of every encoded record.
abbrev pub encoded_size : WalRecord → ℕ
encoded_size r = 17 + payload_size r

pub length-encode :
    (r : WalRecord) (bs : Bytes) → encode_wal_record r ≡ ok bs → length bs ≡ encoded_size r
length-encode r bs h =
    let l = encode_wal_record-Layout r h in
    let (_, total) = length-Layout r bs l in
    omega (
      arith,
      total,
      (unpack_fields-pack wal_record_header (lsn r, (op_type_of r, tt)) (tt, (tt, tt))
          l.header_packed).0,
      length-write_payload r l.payload l.payload_written,
    )
