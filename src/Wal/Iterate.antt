-- ===== src/Wal/Iterate.antt =====
-- `_iter_records` of src/bptreedb/wal.py.
use bptreedb.Prelude.{
  ℕ, zero, suc, ◌+◌, ◌-◌, ◌≤◌, ◌<◌, ◌≡◌, ◌≢◌, ◌⊎◌, inl, inr, refl, sym, ap, ◌∙◌, Bool, true, false,
  List, [], ◌∷◌, ◌++◌, arith, length, drop, length-append, drop-add, append_assoc,
}
use bptreedb.Exceptions.{
  Result, ok, err, eof_error, db_checksum_error, ◌>>=◌, >>=-eq-ok, ok-injective,
}
use bptreedb.Struct.{Bytes}
use bptreedb.Entities.{WalRecord, lsn}
use bptreedb.Codec.Wal.{File, encode_wal_record, decode_next_wal_record_from_file}
use bptreedb.Codec.Wal.RoundTrip.{decode_next-encode}
use bptreedb.Codec.Wal.Length.{encoded_size, length-encode}
use bptreedb.Codec.Wal.Progress.{decode_next-Moved}
use bptreedb.Wal.{Outcome, out_of_fuel, Iteration, yield_then, iter_step, iter_loop, iter_records}

module _ (continue : File → ℕ → Bool → Iteration) where
  yield_then-ends :
      (r : WalRecord × ℕ) (it : Iteration) → it.1 ≢ out_of_fuel → (yield_then r it).1 ≢ out_of_fuel
  yield_then-ends r it h = h

  iter_step-ends :
      (res : Result WalRecord) (file : File) (last : ℕ) (broken : Bool)
      → (res ≡ err eof_error) ⊎ ((n : ℕ) (b : Bool) → (continue file n b).1 ≢ out_of_fuel)
      → (iter_step continue (res, file) last broken).1 ≢ out_of_fuel
  unfolding iter_step
  iter_step-ends (ok r) file last broken (inl e) = cc
  iter_step-ends (ok r) file last broken (inr h) = ground (arith, h (lsn r) broken)
  iter_step-ends (err (db_checksum_error x y)) file last broken (inl e) = cc
  iter_step-ends (err (db_checksum_error x y)) file last broken (inr h) = h last true
  iter_step-ends (err _) file last broken h = λ e. cc

-- The fuel that `iter_records` gives is enough for every file, whatever its bytes.
iter_loop-ends :
    (fuel : ℕ) (file : File) (last : ℕ) (broken : Bool)
    → file.position ≤ length file.contents
    → length file.contents - file.position < fuel
    → (iter_loop fuel file last broken).1 ≢ out_of_fuel
unfolding iter_loop
iter_loop-ends zero file last broken h enough = elim enough [ ]
iter_loop-ends (suc fuel) file last broken h enough =
    let res = decode_next_wal_record_from_file file in
    iter_step-ends (iter_loop fuel) res.0 res.1 last broken (elim (decode_next-Moved file h) [
      | inl e ↦ inl e
      | inr (m, four) ↦
          inr (λ n b. iter_loop-ends fuel res.1 n b m.inside (omega (arith, ap length m.same)))
    ])

-- On every file, whatever its bytes, the pass over the records ends within the rounds that it is
-- given: with the end of the file or with an exception.
pub iter_records_ends : (bytes : Bytes) → (iter_records bytes).1 ≢ out_of_fuel
unfolding iter_records
iter_records_ends bytes =
    iter_loop-ends (suc (length bytes)) (record { contents = bytes; position = 0 }) 0 false
      (omega arith) (omega arith)

-- The bytes of a log.
unfoldable pub encode_all : List WalRecord → Result Bytes
encode_all [] = ok []
encode_all (r ∷ rs) = do b ← encode_wal_record r; bs ← encode_all rs; ok (b ++ bs)

-- Consecutive LSNs from `first` on.
abbrev pub Sequential : ℕ → List WalRecord → Type 0
Sequential first [] = Unit {0}
Sequential first (r ∷ rs) = (lsn r ≡ first) × Sequential (first + 1) rs

-- The records, each with the place behind it.
unfoldable pub marks : ℕ → List WalRecord → List (WalRecord × ℕ)
marks position [] = []
marks position (r ∷ rs) = (r, position + encoded_size r) ∷ marks (position + encoded_size r) rs

-- At `tail` the loop yields nothing more and ends in `o`, given a round for each byte.
pub record Stops (tail : Bytes) (o : Outcome) : Type 0 where
  pub at_tail :
      (fuel last : ℕ) (file : File)
      → length tail < fuel
      → drop file.position file.contents ≡ tail
      → iter_loop fuel file last false ≡ ([], o)

iter_step-good :
    (continue : File → ℕ → Bool → Iteration) (r : WalRecord) (file : File) (last : ℕ)
    → (last ≡ 0) ⊎ (lsn r ≡ last + 1)
    → iter_step continue (ok r, file) last false
      ≡ yield_then (r, file.position) (continue file (lsn r) false)
unfolding iter_step
iter_step-good continue r file last h = ground arith

iter_loop-log :
    (rs : List WalRecord) (first fuel : ℕ) (file : File) (last : ℕ) (bs tail : Bytes) (o : Outcome)
    → Sequential first rs
    → (last ≡ 0) ⊎ (first ≡ last + 1)
    → encode_all rs ≡ ok bs
    → drop file.position file.contents ≡ bs ++ tail
    → Stops tail o
    → length bs + length tail < fuel
    → iter_loop fuel file last false ≡ (marks file.position rs, o)
unfolding iter_loop encode_all marks
iter_loop-log rs first zero file last bs tail o seq chain enc ahead stops enough = elim enough [ ]
iter_loop-log [] first (suc fuel) file last bs tail o seq chain enc ahead stops enough =
    stops.at_tail (suc fuel) last file (omega arith)
      (ahead ∙ ap (λ x. x ++ tail) (sym (ok-injective enc)))
iter_loop-log (r ∷ rs) first (suc fuel) file last bs tail o seq chain enc ahead stops enough =
    let (b, e₁, e₂) = >>=-eq-ok (encode_wal_record r) _ enc in
    let (bs', e₃, e₄) = >>=-eq-ok (encode_all rs) _ e₂ in
    let split : drop file.position file.contents ≡ b ++ (bs' ++ tail) =
      ahead ∙ ap (λ x. x ++ tail) (sym (ok-injective e₄)) ∙ append_assoc b bs' tail in
    let len = length-encode r b e₁ in
    let file' : File = record file { position = file.position + length b } in
    let rest =
      iter_loop-log rs (first + 1) fuel file' (lsn r) bs' tail o seq.1 (inr (omega (arith, seq.0)))
        e₃ (drop-add file.position (length b) file.contents b (bs' ++ tail) split refl) stops
        (omega (arith, ap length (ok-injective e₄), length-append b bs', len)) in
    rw (decode_next-encode r b (bs' ++ tail) file e₁ split) (
      iter_step-good (iter_loop fuel) r file' last (ground (arith, seq.0))
      ∙ ap (yield_then (r, file.position + length b)) rest
      ∙ ap (λ (n : ℕ). ((r, file.position + n) ∷ marks (file.position + n) rs, o)) len)

-- A log of consecutive records before anything at which the loop stops: the pass yields exactly
-- these records, in order, each with the position behind it, and ends as the tail makes it end.
pub iter_records_log :
    (rs : List WalRecord) (first : ℕ) (bs tail : Bytes) (o : Outcome)
    → Sequential first rs
    → encode_all rs ≡ ok bs
    → Stops tail o
    → iter_records (bs ++ tail) ≡ (marks 0 rs, o)
unfolding iter_records
iter_records_log rs first bs tail o seq enc stops =
    iter_loop-log rs first (suc (length (bs ++ tail)))
      (record { contents = bs ++ tail; position = 0 }) 0 bs tail o seq (inl refl) enc refl stops
      (omega (arith, length-append bs tail))
