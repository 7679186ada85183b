-- ===== src/Codec/Wal/Progress.antt =====
-- How far `decode_next_wal_record_from_file` of src/bptreedb/codec.py moves the file.
use bptreedb.Prelude.{
  ℕ, ◌+◌, ◌≤◌, ◌≡◌, ◌⊎◌, inl, inr, refl, arith, length, take, drop, length-take, length-drop,
  ==_iff, ◌==◌, Bool-cases,
}
use bptreedb.Exceptions.{Result, ok, err, eof_error, ◌>>=◌}
use bptreedb.Struct.{Bytes, unpack}
use bptreedb.Codec.{length_field}
use bptreedb.Codec.Wal.{File, read, decode_body, decode_sized, decode_next_wal_record_from_file}

-- A later position in the same file, within its contents.
pub record Moved (before after : File) : Type 0 where
  pub same : after.contents ≡ before.contents
  pub forward : before.position ≤ after.position
  pub inside : after.position ≤ length after.contents

read-Moved :
    (n : ℕ) (file : File) → file.position ≤ length file.contents → Moved file (read n file).1
unfolding read
read-Moved n file h = record {
  same = refl;
  forward = omega arith;
  inside = omega (
    arith,
    length-take n (drop file.position file.contents),
    length-drop file.position file.contents,
  );
}

decode_sized-Moved :
    (bs : Bytes) (file : File) (n : Result ℕ)
    → file.position ≤ length file.contents
    → Moved file (decode_sized bs file n).1
unfolding decode_sized decode_body
decode_sized-Moved bs file (ok n) h = elim (Bool-cases (length (read n file).0 == n)) [
  | inl e ↦ rw e (read-Moved n file h)
  | inr e ↦ rw e (read-Moved n file h)
]
decode_sized-Moved bs file (err e) h = record { same = refl; forward = omega arith; inside = h }

-- Either the file has ended, or at least the four bytes of a length have been read.
pub decode_next-Moved :
    (file : File)
    → file.position ≤ length file.contents
    → ((decode_next_wal_record_from_file file).0 ≡ err eof_error)
      ⊎ (Moved file (decode_next_wal_record_from_file file).1
          × (file.position + 4 ≤ (decode_next_wal_record_from_file file).1.position))
unfolding decode_next_wal_record_from_file
decode_next-Moved file h =
    elim (Bool-cases (length (take 4 (drop file.position file.contents)) == 4)) [
      | inl e ↦
          let four = (==_iff _ _).0 e in
          let m = read-Moved 4 file h in
          let m' =
            decode_sized-Moved (read 4 file).0 (read 4 file).1
              (do n ← unpack length_field (read 4 file).0; ok n.0) m.inside in
          inr (
            rw e (
              record {
                same = m'.same;
                forward = omega (arith, four, m'.forward);
                inside = m'.inside;
              },
              omega (arith, four, m'.forward),
            ))
      | inr e ↦ inl (rw e)
    ]
