-- ===== src/Wal/Tails.antt =====
-- What can stand behind the last good record when `_iter_records` of src/bptreedb/wal.py reaches it.
use bptreedb.Prelude.{
  ℕ, zero, suc, ◌+◌, ◌<◌, ◌≡◌, refl, ap, ◌∙◌, [], ◌∷◌, ◌++◌, arith, length, take, drop, drop-add,
  append_assoc, length-append, take-append_eq, ==_iff, false,
}
use bptreedb.Exceptions.{ok, err, struct_error, db_corrupted_error, db_checksum_error}
use bptreedb.Crc32.{crc32}
use bptreedb.Struct.{Bytes, unpack, unpack_from, pack}
use bptreedb.Struct.RoundTrip.{unpack-pack, unpack_fields-pack}
use bptreedb.Entities.{WalRecord}
use bptreedb.Codec.{length_field, verify_crc32, read_struct}
use bptreedb.Codec.Wal.{
  File, encode_wal_record, decode_wal_record, decode_next_wal_record_from_file,
}
use bptreedb.Codec.Wal.RoundTrip.{decode_next-encode}
use bptreedb.Codec.Wal.Torn.{decode_next-torn, decode_next_no_length}
use bptreedb.Wal.{finished, raised, iter_step, iter_loop}
use bptreedb.Wal.Iterate.{Stops}

-- What a crash in the middle of an append leaves: a proper front of an encoded record.
pub record Torn (tail : Bytes) : Type 0 where
  pub cut : WalRecord
  pub encoded : Bytes
  pub kept : ℕ
  pub is_encoded : encode_wal_record cut ≡ ok encoded
  pub is_proper : kept < length encoded
  pub is_front : tail ≡ take kept encoded

pub Torn-Stops : (tail : Bytes) → Torn tail → Stops tail finished
unfolding iter_loop iter_step
Torn-Stops tail torn = record { at_tail = at_tail }
  where
    at_tail :
        (fuel last : ℕ) (file : File)
        → length tail < fuel
        → drop file.position file.contents ≡ tail
        → iter_loop fuel file last false ≡ ([], finished)
    at_tail zero last file enough ahead = elim enough [ ]
    at_tail (suc fuel) last file enough ahead = rw (
      decode_next-torn torn.cut torn.encoded torn.kept file torn.is_encoded torn.is_proper
          (ahead ∙ torn.is_front),
      iter_step,
    )

-- Nothing behind the records.
pub nil-Stops : Stops [] finished
unfolding iter_loop iter_step
nil-Stops = record { at_tail = at_tail }
  where
    at_tail :
        (fuel last : ℕ) (file : File)
        → 0 < fuel
        → drop file.position file.contents ≡ []
        → iter_loop fuel file last false ≡ ([], finished)
    at_tail zero last file enough ahead = elim enough [ ]
    at_tail (suc fuel) last file enough ahead =
        rw (decode_next_no_length file (omega (arith, ap length ahead)), iter_step)

-- Four zero bytes are read as an empty record whose checksum, that of no bytes, is right.
zeros_decode : decode_wal_record (0 ∷ 0 ∷ 0 ∷ 0 ∷ []) ≡ err struct_error
unfolding decode_wal_record verify_crc32 crc32 unpack unpack_from read_struct
zeros_decode = refl

decode_next_zeros :
    (file : File) (tail : Bytes)
    → drop file.position file.contents ≡ 0 ∷ 0 ∷ 0 ∷ 0 ∷ tail
    → (decode_next_wal_record_from_file file).0 ≡ err struct_error
unfolding decode_next_wal_record_from_file unpack
decode_next_zeros file tail ahead = rw ahead zeros_decode

pub zeros_Stops : (tail : Bytes) → Stops (0 ∷ 0 ∷ 0 ∷ 0 ∷ tail) (raised struct_error)
unfolding iter_loop iter_step
zeros_Stops tail = record { at_tail = at_tail }
  where
    at_tail :
        (fuel last : ℕ) (file : File)
        → length (0 ∷ 0 ∷ 0 ∷ 0 ∷ tail) < fuel
        → drop file.position file.contents ≡ 0 ∷ 0 ∷ 0 ∷ 0 ∷ tail
        → iter_loop fuel file last false ≡ ([], raised struct_error)
    at_tail zero last file enough ahead = elim enough [ ]
    at_tail (suc fuel) last file enough ahead = rw (decode_next_zeros file tail ahead, iter_step)

-- A record of the right size whose checksum is wrong.
pub record Broken (bs : Bytes) : Type 0 where
  pub prefix : Bytes
  pub body : Bytes
  pub expected : ℕ
  pub actual : ℕ
  pub whole : bs ≡ prefix ++ body
  pub counted : pack length_field (length body, tt) ≡ ok prefix
  pub wrong : verify_crc32 bs ≡ err (db_checksum_error expected actual)

decode_next-Broken :
    (file : File) (bs rest : Bytes) (b : Broken bs)
    → drop file.position file.contents ≡ bs ++ rest
    → decode_next_wal_record_from_file file ≡ (
      err (db_checksum_error b.expected b.actual),
      record file { position = file.position + length bs },
    )
unfolding decode_next_wal_record_from_file decode_wal_record
decode_next-Broken file bs rest b ahead =
    let len = (unpack_fields-pack length_field (length b.body, tt) (tt, tt) b.counted).0 in
    let split : drop file.position file.contents ≡ b.prefix ++ (b.body ++ rest) =
      ahead ∙ ap (λ x. x ++ rest) b.whole ∙ append_assoc b.prefix b.body rest in
    let behind : file.position + 4 + length b.body ≡ file.position + length bs =
      omega (arith, ap length b.whole, length-append b.prefix b.body, len) in
    rw (
      split,
      take-append_eq 4 b.prefix (b.body ++ rest) len,
      len,
      unpack-pack length_field (length b.body, tt) b.prefix (tt, tt) b.counted,
      drop-add file.position 4 file.contents b.prefix (b.body ++ rest) split len,
      take-append_eq (length b.body) b.body rest refl,
      (==_iff _ _).1 refl,
      ← b.whole,
      b.wrong,
      behind,
    )

-- A broken record with a good one behind it is no torn tail.
pub Broken-Stops :
    (bs : Bytes) (r : WalRecord) (good rest : Bytes)
    → Broken bs
    → encode_wal_record r ≡ ok good
    → Stops (bs ++ (good ++ rest)) (raised db_corrupted_error)
unfolding iter_loop iter_step
Broken-Stops bs r good rest b enc = record { at_tail = at_tail }
  where
    at_tail :
        (fuel last : ℕ) (file : File)
        → length (bs ++ (good ++ rest)) < fuel
        → drop file.position file.contents ≡ bs ++ (good ++ rest)
        → iter_loop fuel file last false ≡ ([], raised db_corrupted_error)
    at_tail zero last file enough ahead = elim enough [ ]
    at_tail (suc zero) last file enough ahead = absurd (
        omega (
          arith,
          ap length b.whole,
          length-append bs (good ++ rest),
          length-append b.prefix b.body,
          (unpack_fields-pack length_field (length b.body, tt) (tt, tt) b.counted).0,
        ))
    at_tail (suc (suc fuel)) last file enough ahead = rw (
      decode_next-Broken file bs (good ++ rest) b ahead,
      iter_step,
      decode_next-encode r good rest (record file { position = file.position + length bs }) enc
          (drop-add file.position (length bs) file.contents bs (good ++ rest) ahead refl),
    )
