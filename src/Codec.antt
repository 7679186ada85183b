-- ===== src/Codec.antt =====
-- src/bptreedb/codec.py: the formats, `BufferReader`, `BufferWriter` and the checksum test. The
-- encoders and decoders of the file are in the children.
pub mod Buffer
pub mod Sizes
pub mod Meta
pub mod Page
pub mod Wal
use bptreedb.Prelude.{
  ℕ, ◌+◌, ◌-◌, ◌^◌, List, [], ◌∷◌, ◌++◌, ltb, ◌==◌, if◌then◌else◌, length, take, drop, replicate,
}
use bptreedb.Exceptions.{Result, ok, err, db_checksum_error, ◌>>=◌}
use bptreedb.Crc32.{crc32}
use bptreedb.Struct.{Bytes, u8, u32, u64, raw, Struct, size, Values, pack, unpack, unpack_from}

abbrev pub uint32_field : Struct
uint32_field = u32 ∷ []

abbrev pub uint64_field : Struct
uint64_field = u64 ∷ []

abbrev pub length_field : Struct
length_field = uint32_field

abbrev pub crc32_field : Struct
crc32_field = uint32_field

abbrev pub page_id_field : Struct
page_id_field = uint64_field

abbrev pub wal_record_header : Struct
wal_record_header = u64 ∷ u8 ∷ []

abbrev pub meta_page_no_crc : Struct
meta_page_no_crc = raw 8 ∷ u32 ∷ u32 ∷ u64 ∷ u64 ∷ u64 ∷ u64 ∷ []

abbrev pub page_header : Struct
page_header = u8 ∷ raw 3 ∷ u32 ∷ u32 ∷ u32 ∷ u64 ∷ u64 ∷ []

abbrev pub slot_entry : Struct
slot_entry = u32 ∷ u32 ∷ []

-- b"BPTREEDB"
abbrev pub data_file_magic_prefix : Bytes
data_file_magic_prefix = b'B' ∷ b'P' ∷ b'T' ∷ b'R' ∷ b'E' ∷ b'E' ∷ b'D' ∷ b'B' ∷ []

abbrev pub data_file_version : ℕ
data_file_version = 1

abbrev pub min_page_size : ℕ
min_page_size = size meta_page_no_crc + size crc32_field

pub record BufferReader : Type 0 where
  pub bytes : Bytes
  pub offset : ℕ

abbrev pub reader_of : Bytes → BufferReader
reader_of bytes = record { bytes = bytes; offset = 0 }

unfoldable pub read_struct : (s : Struct) → BufferReader → Result (Values s × BufferReader)
read_struct s r = do
  vs ← unpack_from s r.bytes r.offset
  ok (vs, record r { offset = r.offset + size s })

-- A slice: it is short at the end of the buffer, and the offset moves on all the same.
unfoldable pub read_bytes : ℕ → BufferReader → Bytes × BufferReader
read_bytes n r = (take n (drop r.offset r.bytes), record r { offset = r.offset + n })

unfoldable pub read_length_prefixed_bytes : BufferReader → Result (Bytes × BufferReader)
unfolding read_bytes
read_length_prefixed_bytes r = do (n, r') ← read_struct length_field r; ok (read_bytes n.0 r')

-- `BufferWriter` is its buffer; a method returns the buffer after the call.
abbrev pub BufferWriter : Type 0
BufferWriter = Bytes

unfoldable pub write_struct : (s : Struct) → Values s → BufferWriter → Result BufferWriter
write_struct s vs w = do b ← pack s vs; ok (w ++ b)

unfoldable pub write_bytes : Bytes → BufferWriter → BufferWriter
write_bytes value w = w ++ value

unfoldable pub write_length_prefixed_bytes : Bytes → BufferWriter → Result BufferWriter
unfolding write_bytes
write_length_prefixed_bytes value w = do
  w' ← write_struct length_field (length value, tt) w
  ok (write_bytes value w')

unfoldable pub write_crc32 : BufferWriter → Result BufferWriter
write_crc32 w = write_struct crc32_field (crc32 w, tt) w

-- `data[:-4]` and `data[-4:]`
abbrev pub payload_of : Bytes → Bytes
payload_of bytes = take (length bytes - size crc32_field) bytes

abbrev pub trailer_of : Bytes → Bytes
trailer_of bytes = drop (length bytes - size crc32_field) bytes

unfoldable pub verify_crc32 : Bytes → Result (Unit {0})
verify_crc32 bytes = do
  expected ← unpack crc32_field (trailer_of bytes)
  if crc32 (payload_of bytes) == expected.0
      then ok tt
      else err (db_checksum_error expected.0 (crc32 (payload_of bytes)))
