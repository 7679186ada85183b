-- ===== src/Tests/Log.antt =====
-- src/bptreedb/wal.py on a log of two records, a put and a deletion of the same key.
use bptreedb.Prelude.{◌≡◌, ◌≢◌, refl, true, none, List, [], ◌∷◌, ◌++◌, arith, length, take, drop}
use bptreedb.Exceptions.{Result, ok, err, eof_error, struct_error, db_corrupted_error}
use bptreedb.Crc32.{crc32}
use bptreedb.Struct.{Bytes, pack, unpack, unpack_from}
use bptreedb.Entities.{WalRecord, put_record, delete_record}
use bptreedb.Codec.{
  read_struct, read_length_prefixed_bytes, write_struct, write_length_prefixed_bytes, write_crc32,
  verify_crc32,
}
use bptreedb.Codec.Wal.{
  write_payload, encode_wal_record, decode_wal_record, File, decode_next_wal_record_from_file,
}
use bptreedb.Codec.Wal.RoundTrip.{decode-encode, decode_next-encode}
use bptreedb.Codec.Wal.Length.{encode_wal_record-Fits}
use bptreedb.Codec.Wal.Torn.{decode_next-torn}
use bptreedb.Wal.{
  Wal, finished, raised, out_of_fuel, init, open_wal, append, appended, iter_records, replay,
  truncate_before, no_stats,
}
use bptreedb.Wal.Iterate.{encode_all, marks, iter_records_ends}
use bptreedb.Wal.Tails.{Broken}
use bptreedb.Wal.Append.{Logged, apply_all, append-Logged}
use bptreedb.Wal.Truncate.{kept_from, truncate_before_log}
use bptreedb.Wal.Recovery.{replay-torn, iter_records-Broken, iter_records-zeros}

program : Unit {0}
unfolding pack unpack unpack_from crc32 read_struct read_length_prefixed_bytes write_struct
    write_length_prefixed_bytes write_crc32 verify_crc32 write_payload encode_wal_record encode_all
    apply_all
program = tt

abbrev put_seven : WalRecord
put_seven = put_record 1 (7 ∷ []) (9 ∷ [])

abbrev delete_seven : WalRecord
delete_seven = delete_record 2 (7 ∷ [])

abbrev put_bytes : Bytes
put_bytes =
    23 ∷ 0 ∷ 0 ∷ 0 ∷ 1 ∷ 0 ∷ 0 ∷ 0 ∷ 0 ∷ 0 ∷ 0 ∷ 0 ∷ 1 ∷ 1 ∷ 0 ∷ 0 ∷ 0 ∷ 7 ∷ 1 ∷ 0 ∷ 0 ∷ 0 ∷ 9 ∷ 172
    ∷ 175 ∷ 124 ∷ 165 ∷ []

abbrev delete_bytes : Bytes
delete_bytes =
    18 ∷ 0 ∷ 0 ∷ 0 ∷ 2 ∷ 0 ∷ 0 ∷ 0 ∷ 0 ∷ 0 ∷ 0 ∷ 0 ∷ 2 ∷ 1 ∷ 0 ∷ 0 ∷ 0 ∷ 7 ∷ 99 ∷ 33 ∷ 206 ∷ 67 ∷ []

put_encoded : encode_wal_record put_seven ≡ ok put_bytes
unfolding program
put_encoded = refl

delete_encoded : encode_wal_record delete_seven ≡ ok delete_bytes
unfolding program
delete_encoded = refl

decode-encode_example : decode_wal_record put_bytes ≡ ok put_seven
decode-encode_example = decode-encode put_seven put_bytes put_encoded

abbrev at_second : File
at_second = record { contents = put_bytes ++ delete_bytes; position = 27 }

decode_next-encode_example :
    decode_next_wal_record_from_file at_second
    ≡ (ok delete_seven, record { contents = put_bytes ++ delete_bytes; position = 49 })
decode_next-encode_example =
    decode_next-encode delete_seven delete_bytes [] at_second delete_encoded refl

encode_wal_record-Fits_example :
    (bs : Bytes) × (encode_wal_record put_seven ≡ ok bs) × (length bs ≡ 27)
encode_wal_record-Fits_example = encode_wal_record-Fits put_seven (omega arith, omega arith)

decode_next-torn_example :
    (decode_next_wal_record_from_file
      (record { contents = put_bytes ++ take 9 delete_bytes; position = 27 })).0
    ≡ err eof_error
decode_next-torn_example =
    decode_next-torn delete_seven delete_bytes 9
      (record { contents = put_bytes ++ take 9 delete_bytes; position = 27 }) delete_encoded
      (omega arith) refl

-- A log that holds the put, and one that holds both records.
abbrev one_record : Wal
one_record = record {
  file = put_bytes;
  temp = none;
  is_open = true;
  current_lsn = 1;
  stats = no_stats;
}

one_encoded : encode_all (put_seven ∷ []) ≡ ok put_bytes
unfolding program
one_encoded = refl

one_Logged : Logged one_record (put_seven ∷ [])
one_Logged = record {
  first = 1;
  opened = refl;
  holds = one_encoded;
  sequential = (refl, tt);
  current = refl;
}

append-Logged_example :
    (append delete_seven one_record ≡ ok (2, appended delete_seven delete_bytes one_record))
    × Logged (appended delete_seven delete_bytes one_record) (put_seven ∷ delete_seven ∷ [])
append-Logged_example =
    append-Logged one_record (put_seven ∷ []) delete_seven delete_bytes one_Logged delete_encoded
      refl

-- A callback that collects the records.
abbrev collect : WalRecord → List WalRecord → Result (Unit {0}) × List WalRecord
collect r rs = (ok tt, rs ++ r ∷ [])

collected : apply_all collect (put_seven ∷ []) [] ≡ (ok tt, put_seven ∷ [])
unfolding program
collected = refl

-- The deletion was cut off after 20 of its 22 bytes.
replay-torn_example :
    (w' : Wal) × (replay collect (open_wal (init (put_bytes ++ take 20 delete_bytes) none)) []
      ≡ (finished, (w', put_seven ∷ [])))
    × (w'.file ≡ put_bytes)
    × Logged w' (put_seven ∷ [])
replay-torn_example =
    replay-torn collect one_record (put_seven ∷ []) delete_seven delete_bytes 20 none []
      (put_seven ∷ []) one_Logged delete_encoded (omega arith) collected

iter_records_ends_example : (iter_records (255 ∷ 0 ∷ 0 ∷ 0 ∷ 1 ∷ 2 ∷ [])).1 ≢ out_of_fuel
iter_records_ends_example = iter_records_ends (255 ∷ 0 ∷ 0 ∷ 0 ∷ 1 ∷ 2 ∷ [])

-- The deletion with another last byte.
abbrev bad_bytes : Bytes
bad_bytes =
    18 ∷ 0 ∷ 0 ∷ 0 ∷ 2 ∷ 0 ∷ 0 ∷ 0 ∷ 0 ∷ 0 ∷ 0 ∷ 0 ∷ 2 ∷ 1 ∷ 0 ∷ 0 ∷ 0 ∷ 7 ∷ 99 ∷ 33 ∷ 206 ∷ 66 ∷ []

bad_Broken : Broken bad_bytes
unfolding program
bad_Broken = record {
  prefix = take 4 bad_bytes;
  body = drop 4 bad_bytes;
  expected = 1120805219;
  actual = 1137582435;
  whole = refl;
  counted = refl;
  wrong = refl;
}

iter_records-Broken_example :
    iter_records (put_bytes ++ (bad_bytes ++ (delete_bytes ++ [])))
    ≡ (marks 0 (put_seven ∷ []), raised db_corrupted_error)
iter_records-Broken_example =
    iter_records-Broken (put_seven ∷ []) 1 put_bytes bad_bytes delete_bytes [] delete_seven
      (refl, tt) one_encoded bad_Broken delete_encoded

iter_records-zeros_example :
    iter_records (put_bytes ++ 0 ∷ 0 ∷ 0 ∷ 0 ∷ []) ≡ (marks 0 (put_seven ∷ []), raised struct_error)
iter_records-zeros_example =
    iter_records-zeros (put_seven ∷ []) 1 put_bytes [] (refl, tt) one_encoded

abbrev two_records : Wal
two_records = appended delete_seven delete_bytes one_record

two_encoded : encode_all (put_seven ∷ delete_seven ∷ []) ≡ ok (put_bytes ++ delete_bytes)
unfolding program
two_encoded = refl

abbrev two_Logged : Logged two_records (put_seven ∷ delete_seven ∷ [])
two_Logged = record {
  first = 1;
  opened = refl;
  holds = two_encoded;
  sequential = (refl, (refl, tt));
  current = refl;
}

truncate_before_log_example :
    (w' : Wal) × (truncate_before 2 two_records ≡ (finished, w'))
    × Logged w' (kept_from 2 (put_seven ∷ delete_seven ∷ []))
    × (w'.temp ≡ none)
    × (w'.current_lsn ≡ 2)
truncate_before_log_example =
    truncate_before_log 2 two_records (put_seven ∷ delete_seven ∷ []) two_Logged (omega arith)
      (omega arith)
