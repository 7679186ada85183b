-- ===== src/Wal/Recovery.antt =====
-- The tails that a log can have when src/bptreedb/wal.py reads it again: a torn record, a broken
-- record with a good one behind it, and zeros.
use bptreedb.Prelude.{ℕ, ◌<◌, ◌≡◌, refl, List, ◌∷◌, ◌++◌, length, take, Option}
use bptreedb.Exceptions.{Result, ok, struct_error, db_corrupted_error}
use bptreedb.Struct.{Bytes}
use bptreedb.Entities.{WalRecord}
use bptreedb.Codec.Wal.{encode_wal_record}
use bptreedb.Wal.{Wal, finished, raised, init, open_wal, iter_records, replay}
use bptreedb.Wal.Iterate.{Sequential, encode_all, marks, iter_records_log}
use bptreedb.Wal.Tails.{Torn-Stops, Broken, Broken-Stops, zeros_Stops}
use bptreedb.Wal.Append.{Logged, apply_all}
use bptreedb.Wal.Replay.{replay_log}

-- A crash leaves a log and, behind its records, a proper front of one more encoded record. If the
-- callback raises for none of the log's records, then opening and replaying that file gives each
-- of them to the callback once and in order, cuts the torn front off, and leaves a log that can be
-- appended to.
pub replay-torn :
    {S : Type 0} (callback : WalRecord → S → Result (Unit {0}) × S) (w : Wal) (rs : List WalRecord)
    (r : WalRecord) (bs : Bytes) (k : ℕ) (temp : Option Bytes) (s t : S)
    → Logged w rs
    → encode_wal_record r ≡ ok bs
    → k < length bs
    → apply_all callback rs s ≡ (ok tt, t)
    → (w' : Wal) × (replay callback (open_wal (init (w.file ++ take k bs) temp)) s
        ≡ (finished, (w', t)))
      × (w'.file ≡ w.file)
      × Logged w' rs
unfolding open_wal
replay-torn callback w rs r bs k temp s t l e torn h =
    replay_log callback rs l.first w.file (take k bs) (open_wal (init (w.file ++ take k bs) temp)) s
      t refl refl l.sequential l.holds
      (Torn-Stops (take k bs) (record {
        cut = r;
        encoded = bs;
        kept = k;
        is_encoded = e;
        is_proper = torn;
        is_front = refl;
      }))
      h

-- Consecutive records, then a record of the right size whose checksum is wrong, then a good record
-- and anything behind it: the pass yields the records before the broken one, and raises
-- `DBCorruptedError`.
pub iter_records-Broken :
    (rs : List WalRecord) (first : ℕ) (bs broken good rest : Bytes) (r : WalRecord)
    → Sequential first rs
    → encode_all rs ≡ ok bs
    → Broken broken
    → encode_wal_record r ≡ ok good
    → iter_records (bs ++ (broken ++ (good ++ rest))) ≡ (marks 0 rs, raised db_corrupted_error)
iter_records-Broken rs first bs broken good rest r seq e b g =
    iter_records_log rs first bs (broken ++ (good ++ rest)) (raised db_corrupted_error) seq e
      (Broken-Stops broken r good rest b g)

-- Consecutive records with four zero bytes behind them: the pass yields the records, and raises
-- `struct.error`.
pub iter_records-zeros :
    (rs : List WalRecord) (first : ℕ) (bs rest : Bytes)
    → Sequential first rs
    → encode_all rs ≡ ok bs
    → iter_records (bs ++ 0 ∷ 0 ∷ 0 ∷ 0 ∷ rest) ≡ (marks 0 rs, raised struct_error)
iter_records-zeros rs first bs rest seq e =
    iter_records_log rs first bs (0 ∷ 0 ∷ 0 ∷ 0 ∷ rest) (raised struct_error) seq e
      (zeros_Stops rest)
