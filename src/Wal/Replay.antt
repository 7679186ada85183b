-- ===== src/Wal/Replay.antt =====
-- `replay` of src/bptreedb/wal.py.
use bptreedb.Prelude.{
  ℕ, ◌+◌, ◌≡◌, refl, sym, ap, ◌∙◌, true, List, [], ◌∷◌, ◌++◌, arith, length, take, length-append,
  take-append_eq, if_true,
}
use bptreedb.Exceptions.{Result, ok, >>=-eq-ok, ok-injective}
use bptreedb.Struct.{Bytes}
use bptreedb.Entities.{WalRecord}
use bptreedb.Codec.Wal.{encode_wal_record}
use bptreedb.Codec.Wal.Length.{encoded_size, length-encode}
use bptreedb.Wal.{iter_records, Wal, finished, note_replayed, replay_loop, replay}
use bptreedb.Wal.Iterate.{Sequential, encode_all, marks, Stops, iter_records_log}
use bptreedb.Wal.Append.{Logged, apply_all, apply_all-ok}

-- The log after a replay of the records that leaves the bytes `bs`.
unfoldable pub replayed : List WalRecord → Bytes → Wal → Wal
replayed [] bs w = record w { file = bs; stats = record w.stats { fsyncs = w.stats.fsyncs + 1 } }
replayed (r ∷ rs) bs w = replayed rs bs (note_replayed r w)

module _ (bs : Bytes) where
  replayed-file : (rs : List WalRecord) (w : Wal) → (replayed rs bs w).file ≡ bs
  unfolding replayed
  replayed-file [] w = refl
  replayed-file (r ∷ rs) w = replayed-file rs (note_replayed r w)

  replayed-is_open : (rs : List WalRecord) (w : Wal) → (replayed rs bs w).is_open ≡ w.is_open
  unfolding replayed
  replayed-is_open [] w = refl
  replayed-is_open (r ∷ rs) w = replayed-is_open rs (note_replayed r w)

  replayed-current_lsn :
      (rs : List WalRecord) (first : ℕ) (w : Wal)
      → Sequential first rs
      → w.current_lsn + 1 ≡ first
      → (replayed rs bs w).current_lsn + 1 ≡ first + length rs
  unfolding replayed
  replayed-current_lsn [] first w s h = omega (arith, h)
  replayed-current_lsn (r ∷ rs) first w s h =
      let ih = replayed-current_lsn rs (first + 1) (note_replayed r w) s.1 (omega (arith, s.0)) in
      omega (arith, ih)

-- A log of the records from LSN `first`, read from scratch.
replayed-Logged :
    (rs : List WalRecord) (first : ℕ) (bs : Bytes) (w : Wal)
    → w.is_open ≡ true
    → w.current_lsn ≡ 0
    → Sequential first rs
    → encode_all rs ≡ ok bs
    → Logged (replayed rs bs w) rs
unfolding replayed
replayed-Logged [] first bs w o z s e = record {
  first = 1;
  opened = o;
  holds = e;
  sequential = tt;
  current = omega arith;
}
replayed-Logged (r ∷ rs) first bs w o z s e = record {
  first = first;
  opened = replayed-is_open bs rs (note_replayed r w) ∙ o;
  holds = e ∙ ap ok (sym (replayed-file bs rs (note_replayed r w)));
  sequential = s;
  current =
      let c = replayed-current_lsn bs rs (first + 1) (note_replayed r w) s.1 (omega (arith, s.0)) in
      omega (arith, c);
}

module _ {S : Type 0} (callback : WalRecord → S → Result (Unit {0}) × S) where
  replay_loop-marks :
      (rs : List WalRecord) (position : ℕ) (bs : Bytes) (w : Wal) (s t : S)
      → encode_all rs ≡ ok bs
      → apply_all callback rs s ≡ (ok tt, t)
      → replay_loop callback (marks position rs) finished position w s
        ≡ (finished, (replayed rs (take (position + length bs) w.file) w, t))
  unfolding replay_loop marks replayed encode_all apply_all
  replay_loop-marks [] position bs w s t e h =
      let same : position + length bs ≡ position = omega (arith, ap length (ok-injective e)) in
      rw same (ap (λ x. (finished, (replayed [] (take position w.file) w, x))) (ap (λ x. x.1) h))
  replay_loop-marks (r ∷ rs) position bs w s t e h =
      let (b, e₁, e₂) = >>=-eq-ok (encode_wal_record r) _ e in
      let (bs', e₃, e₄) = >>=-eq-ok (encode_all rs) _ e₂ in
      let (called, rest) = apply_all-ok callback r rs s t h in
      let len = length-encode r b e₁ in
      let here : position + encoded_size r + length bs' ≡ position + length bs =
        omega (arith, ap length (ok-injective e₄), length-append b bs', len) in
      rw called (
        replay_loop-marks rs (position + encoded_size r) bs' (note_replayed r w) (callback r s).1 t
          e₃ rest
        ∙ ap (λ (n : ℕ). (finished, (replayed rs (take n w.file) (note_replayed r w), t))) here)

  -- An open log whose file holds consecutive records and a tail at which reading finishes: every
  -- record goes through the callback once and in order, the file is cut back to the records, and
  -- the log is ready for the next append.
  pub replay_log :
      (rs : List WalRecord) (first : ℕ) (bs tail : Bytes) (w : Wal) (s t : S)
      → w.is_open ≡ true
      → w.file ≡ bs ++ tail
      → Sequential first rs
      → encode_all rs ≡ ok bs
      → Stops tail finished
      → apply_all callback rs s ≡ (ok tt, t)
      → (w' : Wal) × (replay callback w s ≡ (finished, (w', t))) × (w'.file ≡ bs) × Logged w' rs
  unfolding replay
  replay_log rs first bs tail w s t o f seq e stops h =
      let w₀ : Wal = record w { current_lsn = 0 } in
      let it : iter_records w.file ≡ (marks 0 rs, finished) =
        ap iter_records f ∙ iter_records_log rs first bs tail finished seq e stops in
      let cut : take (length bs) w.file ≡ bs = rw f (take-append_eq (length bs) bs tail refl) in
      let zero_add : 0 + length bs ≡ length bs = omega arith in
      (
        replayed rs bs w₀,
        if_true _ _ o
            ∙ ap (λ x. replay_loop callback x.0 x.1 0 w₀ s) it
            ∙ replay_loop-marks rs 0 bs w₀ s t e h
            ∙ ap (λ x. (finished, (replayed rs x w₀, t)))
                (ap (λ (n : ℕ). take n w.file) zero_add ∙ cut),
        replayed-file bs rs w₀,
        replayed-Logged rs first bs w₀ o refl seq e,
      )
