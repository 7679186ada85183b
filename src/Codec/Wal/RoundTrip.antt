-- ===== src/Codec/Wal/RoundTrip.antt =====
-- `encode_wal_record` of src/bptreedb/codec.py and the two functions that decode its bytes.
use bptreedb.Prelude.{
  ℕ, ◌+◌, ◌≡◌, sym, ap, ◌∙◌, [], ◌++◌, arith, length, length-append, append_assoc, drop,
  take-append_eq, drop-add, ==_iff,
}
use bptreedb.Exceptions.{ok, >>=-eq-ok}
use bptreedb.Struct.{Bytes, pack}
use bptreedb.Struct.RoundTrip.{unpack_fields-pack, unpack-pack}
use bptreedb.Entities.{WalRecord, put_record, delete_record, checkpoint_record, lsn}
use bptreedb.Codec.{
  BufferReader, reader_of, uint64_field, length_field, wal_record_header, write_struct,
  write_length_prefixed_bytes, verify_crc32,
}
use bptreedb.Codec.Buffer.{
  Reads, Reads-advance, Reads-head, Reads-start, advance, write_struct-eq-ok, read_struct-pack,
  write_length-Prefixed-eq-ok, verify_crc32-write_crc32,
}
use bptreedb.Codec.Wal.{
  op_type_of, write_payload, encode_wal_record, decode_put, decode_delete, decode_checkpoint,
  decode_by_op_type, decode_wal_record, File, decode_next_wal_record_from_file,
}

decode_put-payload :
    (n : ℕ) (key value : Bytes) (p rest : Bytes) (rd : BufferReader)
    → write_payload (put_record n key value) ≡ ok p
    → Reads rd p rest
    → decode_put n rd ≡ ok (put_record n key value)
unfolding write_payload decode_put
decode_put-payload n key value p rest rd h reads =
    let (w, h₁, h₂) = >>=-eq-ok (write_length_prefixed_bytes key []) _ h in
    let (b, e, pb) = write_length-Prefixed-eq-ok key [] h₁ in
    let (c, e', pc) = write_length-Prefixed-eq-ok value w h₂ in
    let whole : p ≡ b ++ c = e' ∙ ap (λ x. x ++ c) e in
    let reads' : Reads rd (b ++ c) rest = rw whole at reads in
    rw (
      pb.read_back rd (c ++ rest) (Reads-head rd b c rest reads'),
      pc.read_back _ rest (Reads-advance rd _ b c rest reads' pb.counted),
    )

decode_delete-payload :
    (n : ℕ) (key : Bytes) (p rest : Bytes) (rd : BufferReader)
    → write_payload (delete_record n key) ≡ ok p
    → Reads rd p rest
    → decode_delete n rd ≡ ok (delete_record n key)
unfolding write_payload decode_delete
decode_delete-payload n key p rest rd h reads =
    let (b, e, pb) = write_length-Prefixed-eq-ok key [] h in
    let reads' : Reads rd b rest = rw e at reads in rw (pb.read_back rd rest reads')

decode_checkpoint-payload :
    (n root head next : ℕ) (p rest : Bytes) (rd : BufferReader)
    → write_payload (checkpoint_record n root head next) ≡ ok p
    → Reads rd p rest
    → decode_checkpoint n rd ≡ ok (checkpoint_record n root head next)
unfolding write_payload decode_checkpoint
decode_checkpoint-payload n root head next p rest rd h reads =
    let (w, h₁, h') = >>=-eq-ok (write_struct uint64_field (root, tt) []) _ h in
    let (w', h₂, h₃) = >>=-eq-ok (write_struct uint64_field (head, tt) w) _ h' in
    let (a, pa, e₁) = write_struct-eq-ok uint64_field (root, tt) [] h₁ in
    let (b, pb, e₂) = write_struct-eq-ok uint64_field (head, tt) w h₂ in
    let (c, pc, e₃) = write_struct-eq-ok uint64_field (next, tt) w' h₃ in
    let la = (unpack_fields-pack uint64_field (root, tt) (tt, tt) pa).0 in
    let lb = (unpack_fields-pack uint64_field (head, tt) (tt, tt) pb).0 in
    let whole : p ≡ a ++ (b ++ c) =
      e₃ ∙ ap (λ x. x ++ c) (e₂ ∙ ap (λ x. x ++ b) e₁) ∙ append_assoc a b c in
    let reads' : Reads rd (a ++ (b ++ c)) rest = rw whole at reads in
    let reads₂ : Reads (advance 8 rd) (b ++ c) rest =
      Reads-advance rd 8 a (b ++ c) rest reads' la in
    rw (
      read_struct-pack uint64_field (root, tt) rd a _ (tt, tt) pa
          (Reads-head rd a (b ++ c) rest reads'),
      read_struct-pack uint64_field (head, tt) _ b _ (tt, tt) pb (Reads-head _ b c rest reads₂),
      read_struct-pack uint64_field (next, tt) _ c _ (tt, tt) pc
          (Reads-advance _ 8 b c rest reads₂ lb),
    )

decode_by_op_type-payload :
    (r : WalRecord) (p rest : Bytes) (rd : BufferReader)
    → write_payload r ≡ ok p
    → Reads rd p rest
    → decode_by_op_type (op_type_of r) (lsn r) rd ≡ ok r
unfolding decode_by_op_type
decode_by_op_type-payload (put_record n k v) p rest rd h reads =
    decode_put-payload n k v p rest rd h reads
decode_by_op_type-payload (delete_record n k) p rest rd h reads =
    decode_delete-payload n k p rest rd h reads
decode_by_op_type-payload (checkpoint_record n a b c) p rest rd h reads =
    decode_checkpoint-payload n a b c p rest rd h reads

-- The parts of an encoded record.
pub record Layout (r : WalRecord) (bs : Bytes) : Type 0 where
  pub prefix : Bytes
  pub header : Bytes
  pub payload : Bytes
  pub crc : Bytes
  pub prefix_packed : pack length_field (length header + length payload + 4, tt) ≡ ok prefix
  pub header_packed : pack wal_record_header (lsn r, (op_type_of r, tt)) ≡ ok header
  pub payload_written : write_payload r ≡ ok payload
  pub crc_sized : length crc ≡ 4
  pub whole : bs ≡ prefix ++ (header ++ (payload ++ crc))
  pub verified : verify_crc32 bs ≡ ok tt

pub encode_wal_record-Layout :
    (r : WalRecord) {bs : Bytes} → encode_wal_record r ≡ ok bs → Layout r bs
unfolding encode_wal_record
encode_wal_record-Layout r h =
    let (p, h₁, h₂) = >>=-eq-ok (write_payload r) _ h in
    let (w, h₃, h₄) =
      >>=-eq-ok (write_struct wal_record_header (lsn r, (op_type_of r, tt)) []) _ h₂ in
    let (w', h₅, h₆) =
      >>=-eq-ok (write_struct length_field (length w + length p + 4, tt) []) _ h₄ in
    let (a, pa, e₁) = write_struct-eq-ok wal_record_header (lsn r, (op_type_of r, tt)) [] h₃ in
    let (b, pb, e₂) = write_struct-eq-ok length_field (length w + length p + 4, tt) [] h₅ in
    let (c, e₃, lc, ver) = verify_crc32-write_crc32 ((w' ++ w) ++ p) h₆ in
    record {
      prefix = b;
      header = w;
      payload = p;
      crc = c;
      prefix_packed = pb;
      header_packed = pa ∙ ap ok (sym e₁);
      payload_written = h₁;
      crc_sized = lc;
      whole =
          e₃
          ∙ ap (λ x. ((x ++ w) ++ p) ++ c) e₂
          ∙ append_assoc (b ++ w) p c
          ∙ append_assoc b w (p ++ c);
      verified = ver;
    }

-- Every record that `encode_wal_record` accepts is decoded to itself.
pub decode-encode :
    (r : WalRecord) (bs : Bytes) → encode_wal_record r ≡ ok bs → decode_wal_record bs ≡ ok r
unfolding decode_wal_record
decode-encode r bs h =
    let l = encode_wal_record-Layout r h in
    let (len, _) =
      unpack_fields-pack length_field (length l.header + length l.payload + 4, tt) (tt, tt)
        l.prefix_packed in
    let (len', _) =
      unpack_fields-pack wal_record_header (lsn r, (op_type_of r, tt)) (tt, (tt, tt))
        l.header_packed in
    let start : Reads (reader_of bs) (l.prefix ++ (l.header ++ (l.payload ++ l.crc))) [] =
      Reads-start bs _ l.whole in
    let at_header =
      Reads-advance (reader_of bs) 4 l.prefix (l.header ++ (l.payload ++ l.crc)) [] start len in
    let at_payload = Reads-advance _ 9 l.header (l.payload ++ l.crc) [] at_header len' in
    rw
      (
        l.verified,
        read_struct-pack wal_record_header (lsn r, (op_type_of r, tt)) _ l.header _ (tt, (tt, tt))
            l.header_packed (Reads-head _ l.header (l.payload ++ l.crc) [] at_header),
      )
      (decode_by_op_type-payload r l.payload _ _ l.payload_written
        (Reads-head _ l.payload l.crc [] at_payload))

pub length-Layout :
    (r : WalRecord) (bs : Bytes) (l : Layout r bs)
    → (length l.prefix ≡ 4) × (length bs ≡ 4 + (length l.header + length l.payload + 4))
length-Layout r bs l =
    let len =
      (unpack_fields-pack length_field (length l.header + length l.payload + 4, tt) (tt, tt)
        l.prefix_packed).0 in
    (
      len,
      omega (
        arith,
        ap length l.whole,
        length-append l.prefix (l.header ++ (l.payload ++ l.crc)),
        length-append l.header (l.payload ++ l.crc),
        length-append l.payload l.crc,
        len,
        l.crc_sized,
      ),
    )

-- If the bytes from a file's position on start with an encoded record, that record is read, and
-- the position is behind it.
pub decode_next-encode :
    (r : WalRecord) (bs rest : Bytes) (file : File)
    → encode_wal_record r ≡ ok bs
    → drop file.position file.contents ≡ bs ++ rest
    → decode_next_wal_record_from_file file
      ≡ (ok r, record file { position = file.position + length bs })
unfolding decode_next_wal_record_from_file
decode_next-encode r bs rest file h ahead =
    let l = encode_wal_record-Layout r h in
    let (len, total) = length-Layout r bs l in
    let body = l.header ++ (l.payload ++ l.crc) in
    let split : drop file.position file.contents ≡ l.prefix ++ (body ++ rest) =
      ahead ∙ ap (λ x. x ++ rest) l.whole ∙ append_assoc l.prefix body rest in
    let body_len : length body ≡ length l.header + length l.payload + 4 =
      omega (arith, total, ap length l.whole, length-append l.prefix body, len) in
    let behind : file.position + 4 + length body ≡ file.position + length bs =
      omega (arith, total, body_len) in
    rw (
      split,
      take-append_eq 4 l.prefix (body ++ rest) len,
      len,
      unpack-pack length_field (length l.header + length l.payload + 4, tt) l.prefix (tt, tt)
          l.prefix_packed,
      drop-add file.position 4 file.contents l.prefix (body ++ rest) split len,
      take-append_eq _ body rest body_len,
      (==_iff _ _).1 body_len,
      ← l.whole,
      decode-encode r bs h,
      behind,
    )
