-- ===== src/Codec/Wal.antt =====
-- The WAL records of src/bptreedb/codec.py: `WALOperationType`, `encode_wal_record`,
-- `decode_wal_record` and `decode_next_wal_record_from_file`.
pub mod RoundTrip
pub mod Length
pub mod Progress
pub mod Torn
use bptreedb.Prelude.{ℕ, ◌+◌, [], ◌++◌, ◌==◌, if◌then◌else◌, length, take, drop}
use bptreedb.Exceptions.{Result, ok, err, value_error, eof_error, ◌>>=◌, ◌>>◌}
use bptreedb.Struct.{Bytes, size, unpack}
use bptreedb.Entities.{WalRecord, put_record, delete_record, checkpoint_record, lsn}
use bptreedb.Codec.{
  BufferReader, reader_of, uint64_field, length_field, crc32_field, wal_record_header, read_struct,
  read_bytes, read_length_prefixed_bytes, BufferWriter, write_struct, write_bytes,
  write_length_prefixed_bytes, write_crc32, verify_crc32,
}

abbrev pub wal_put : ℕ
wal_put = 0x01

abbrev pub wal_delete : ℕ
wal_delete = 0x02

abbrev pub wal_checkpoint : ℕ
wal_checkpoint = 0x03

-- The first result of the `match` in `encode_wal_record`, and the payload that it writes.
abbrev pub op_type_of : WalRecord → ℕ
op_type_of (put_record n k v) = wal_put
op_type_of (delete_record n k) = wal_delete
op_type_of (checkpoint_record n r f p) = wal_checkpoint

unfoldable pub write_payload : WalRecord → Result BufferWriter
write_payload (put_record n key value) = do
  w ← write_length_prefixed_bytes key []
  write_length_prefixed_bytes value w
write_payload (delete_record n key) = write_length_prefixed_bytes key []
write_payload (checkpoint_record n root_page_id freelist_head next_page_id) = do
  w ← write_struct uint64_field (root_page_id, tt) []
  w' ← write_struct uint64_field (freelist_head, tt) w
  write_struct uint64_field (next_page_id, tt) w'

unfoldable pub encode_wal_record : WalRecord → Result Bytes
unfolding write_payload write_bytes
encode_wal_record r = do
  payload ← write_payload r
  header ← write_struct wal_record_header (lsn r, (op_type_of r, tt)) []
  let length_field_value = length header + length payload + size crc32_field
  w ← write_struct length_field (length_field_value, tt) []
  write_crc32 (write_bytes payload (write_bytes header w))

-- The cases of the `match` in `decode_wal_record`.
pub decode_put : ℕ → BufferReader → Result WalRecord
decode_put n r = do
  (key, r₁) ← read_length_prefixed_bytes r
  (value, _) ← read_length_prefixed_bytes r₁
  ok (put_record n key value)

pub decode_delete : ℕ → BufferReader → Result WalRecord
decode_delete n r = do (key, _) ← read_length_prefixed_bytes r; ok (delete_record n key)

pub decode_checkpoint : ℕ → BufferReader → Result WalRecord
decode_checkpoint n r = do
  (root_page_id, r₁) ← read_struct uint64_field r
  (freelist_head, r₂) ← read_struct uint64_field r₁
  (next_page_id, _) ← read_struct uint64_field r₂
  ok (checkpoint_record n root_page_id.0 freelist_head.0 next_page_id.0)

pub decode_by_op_type : ℕ → ℕ → BufferReader → Result WalRecord
unfolding decode_put decode_delete decode_checkpoint
decode_by_op_type op n r =
    if op == wal_put
    then decode_put n r
    else if op == wal_delete
    then decode_delete n r
    else if op == wal_checkpoint
    then decode_checkpoint n r
    else err value_error

unfoldable pub decode_wal_record : Bytes → Result WalRecord
unfolding decode_by_op_type read_bytes
decode_wal_record bytes = do
  verify_crc32 bytes
  let (_, r) = read_bytes (size length_field) (reader_of bytes)
  (header, r') ← read_struct wal_record_header r
  decode_by_op_type header.1.0 header.0 r'

-- An open file: its contents and the position of the next read.
pub record File : Type 0 where
  pub contents : Bytes
  pub position : ℕ

-- `file.read(n)` is short at the end of the file, and moves the position by what it returns.
unfoldable pub read : ℕ → File → Bytes × File
read n file =
    let got = take n (drop file.position file.contents) in
    (got, record file { position = file.position + length got })

-- The file is moved whether or not the call raises.
pub decode_body : Bytes → ℕ → Bytes × File → Result WalRecord × File
decode_body length_bytes record_length (record_body, file) =
    if length record_body == record_length
    then (decode_wal_record (length_bytes ++ record_body), file)
    else (err eof_error, file)

pub decode_sized : Bytes → File → Result ℕ → Result WalRecord × File
unfolding decode_body read
decode_sized length_bytes file (ok record_length) =
    decode_body length_bytes record_length (read record_length file)
decode_sized length_bytes file (err e) = (err e, file)

pub decode_after_length : Bytes × File → Result WalRecord × File
unfolding decode_sized
decode_after_length (length_bytes, file) =
    if length length_bytes == size length_field
    then decode_sized length_bytes file (do n ← unpack length_field length_bytes; ok n.0)
    else (err eof_error, file)

unfoldable pub decode_next_wal_record_from_file : File → Result WalRecord × File
unfolding decode_after_length read
decode_next_wal_record_from_file file = decode_after_length (read (size length_field) file)
