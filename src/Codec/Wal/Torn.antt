-- ===== src/Codec/Wal/Torn.antt =====
-- `decode_next_wal_record_from_file` of src/bptreedb/codec.py on the front of a record.
use bptreedb.Prelude.{
  ℕ, ◌+◌, ◌-◌, ◌≤◌, ◌<◌, ◌≡◌, ◌≢◌, inl, inr, ap, ◌∙◌, false, ◌++◌, arith, length, take, drop,
  length-take, ◌==◌, Bool-cases, take-append_ge, take-append_eq, drop-add, leb, take_of_length-le,
}
use bptreedb.Exceptions.{ok, err, eof_error}
use bptreedb.Struct.{Bytes, pack}
use bptreedb.Struct.RoundTrip.{unpack-pack}
use bptreedb.Entities.{WalRecord}
use bptreedb.Codec.{length_field}
use bptreedb.Codec.Wal.{File, encode_wal_record, decode_next_wal_record_from_file}
use bptreedb.Codec.Wal.RoundTrip.{encode_wal_record-Layout, length-Layout}

ne→==-false : (a b : ℕ) → a ≢ b → (a == b) ≡ false
ne→==-false a b h = ground arith

-- Less than a length is left.
pub decode_next_no_length :
    (file : File)
    → length (drop file.position file.contents) < 4
    → (decode_next_wal_record_from_file file).0 ≡ err eof_error
unfolding decode_next_wal_record_from_file
decode_next_no_length file h = rw (
    ne→==-false (length (take 4 (drop file.position file.contents))) 4
      (omega (arith, length-take 4 (drop file.position file.contents))))

-- A length, and less than it counts.
decode_next_short_body :
    (file : File) (n : ℕ) (prefix body : Bytes)
    → pack length_field (n, tt) ≡ ok prefix
    → length prefix ≡ 4
    → drop file.position file.contents ≡ prefix ++ body
    → length body < n
    → (decode_next_wal_record_from_file file).0 ≡ err eof_error
unfolding decode_next_wal_record_from_file
decode_next_short_body file n prefix body packed len ahead short = rw (
  ahead,
  take-append_eq 4 prefix body len,
  len,
  unpack-pack length_field (n, tt) prefix (tt, tt) packed,
  drop-add file.position 4 file.contents prefix body ahead len,
  take_of_length-le n body (omega arith),
  ne→==-false (length body) n (omega arith),
)

-- Where a file holds only a proper front of an encoded record from its position on, the end of the
-- file is reported.
pub decode_next-torn :
    (r : WalRecord) (bs : Bytes) (k : ℕ) (file : File)
    → encode_wal_record r ≡ ok bs
    → k < length bs
    → drop file.position file.contents ≡ take k bs
    → (decode_next_wal_record_from_file file).0 ≡ err eof_error
decode_next-torn r bs k file h torn ahead =
    let l = encode_wal_record-Layout r h in
    let (len, total) = length-Layout r bs l in
    let body = l.header ++ (l.payload ++ l.crc) in
    elim (Bool-cases (leb 4 k)) [
      | inl ge ↦
          let four : 4 ≤ k = ground arith in
          decode_next_short_body file (length l.header + length l.payload + 4) l.prefix
            (take (k - length l.prefix) body) l.prefix_packed len
            (ahead ∙ ap (take k) l.whole ∙ take-append_ge k l.prefix body (omega (arith, len)))
            (omega (arith, length-take (k - length l.prefix) body, total, len))
      | inr lt ↦
          let few : k < 4 = ground arith in
          decode_next_no_length file (omega (arith, ap length ahead, length-take k bs))
    ]
