-- ===== src/Wal.antt =====
-- src/bptreedb/wal.py: the write-ahead log. The file at `path` is `file` (empty if it does not
-- exist yet), the temporary file of a rotation is `temp`. Writes go to the end, as in mode `a+b`,
-- and every read pass starts with `seek(0)`, so the handle has no position between two calls.
pub mod Iterate
pub mod Append
pub mod Tails
pub mod Replay
pub mod Truncate
pub mod Recovery
use bptreedb.Prelude.{
  ℕ, zero, suc, ◌+◌, ◌++◌, List, [], ◌∷◌, Bool, true, false, not, ◌&&◌, ◌||◌, Option, none, some,
  leb, ◌==◌, if◌then◌else◌, length, take,
}
use bptreedb.Exceptions.{
  Error, Result, ok, err, assertion_error, db_corrupted_error, db_checksum_error, eof_error, ◌>>=◌,
  ◌>>◌, guard,
}
use bptreedb.Struct.{Bytes}
use bptreedb.Entities.{WalRecord, put_record, delete_record, checkpoint_record, lsn}
use bptreedb.Codec.Wal.{File, encode_wal_record, decode_next_wal_record_from_file}

pub record WalStats : Type 0 where
  pub records_appended : ℕ
  pub bytes_appended : ℕ
  pub fsyncs : ℕ
  pub records_replayed : ℕ
  pub truncations : ℕ

abbrev pub no_stats : WalStats
no_stats = record {
  records_appended = 0;
  bytes_appended = 0;
  fsyncs = 0;
  records_replayed = 0;
  truncations = 0;
}

pub record Wal : Type 0 where
  pub file : Bytes
  pub temp : Option Bytes
  pub is_open : Bool
  pub current_lsn : ℕ
  pub stats : WalStats

-- `WAL(path)` on a directory with these two files.
abbrev pub init : Bytes → Option Bytes → Wal
init file temp = record {
  file = file;
  temp = temp;
  is_open = false;
  current_lsn = 0;
  stats = no_stats;
}

unfoldable pub open_wal : Wal → Wal
open_wal w = if w.is_open then w else record w { temp = none; is_open = true; current_lsn = 0 }

unfoldable pub close : Wal → Wal
close w =
    if w.is_open
    then record w { is_open = false; stats = record w.stats { fsyncs = w.stats.fsyncs + 1 } }
    else w

abbrev pub size_bytes : Wal → ℕ
size_bytes w = length w.file

-- What `_append` leaves behind once the record is encoded.
abbrev pub appended : WalRecord → Bytes → Wal → Wal
appended r encoded w = record w {
  file = w.file ++ encoded;
  current_lsn = lsn r;
  stats = record w.stats {
    records_appended = w.stats.records_appended + 1;
    bytes_appended = w.stats.bytes_appended + length encoded;
    fsyncs = w.stats.fsyncs + 1;
  };
}

-- If the encoder raises, nothing has changed yet.
unfoldable pub append : WalRecord → Wal → Result (ℕ × Wal)
append r w = do
  guard w.is_open assertion_error
  encoded ← encode_wal_record r
  ok (lsn r, appended r encoded w)

unfoldable pub append_put : Bytes → Bytes → Wal → Result (ℕ × Wal)
append_put key value w = append (put_record (w.current_lsn + 1) key value) w

unfoldable pub append_delete : Bytes → Wal → Result (ℕ × Wal)
append_delete key w = append (delete_record (w.current_lsn + 1) key) w

unfoldable pub append_checkpoint : ℕ → ℕ → ℕ → Wal → Result (ℕ × Wal)
append_checkpoint root_page_id freelist_head next_page_id w =
    append (checkpoint_record (w.current_lsn + 1) root_page_id freelist_head next_page_id) w

-- How a pass over the records ends. `out_of_fuel` is no outcome of the program: see `Iterate`.
pub data Outcome : Type 0 where
  finished : Outcome
  raised : Error → Outcome
  out_of_fuel : Outcome

-- What `_iter_records` yields, each record with `tell()` behind it, and how it ends.
abbrev pub Iteration : Type 0
Iteration = List (WalRecord × ℕ) × Outcome

abbrev pub yield_then : WalRecord × ℕ → Iteration → Iteration
yield_then r (rs, o) = (r ∷ rs, o)

-- One round of the `while`, with the rest of the loop as an argument.
pub iter_step : (File → ℕ → Bool → Iteration) → Result WalRecord × File → ℕ → Bool → Iteration
iter_step continue (ok r, file) last_lsn broken =
    if broken
    then ([], raised db_corrupted_error)
    else if not (last_lsn == 0) && not (lsn r == last_lsn + 1)
    then ([], raised db_corrupted_error)
    else yield_then (r, file.position) (continue file (lsn r) broken)
iter_step continue (err (db_checksum_error x y), file) last_lsn broken = continue file last_lsn true
iter_step continue (err eof_error, file) last_lsn broken = ([], finished)
iter_step continue (err e, file) last_lsn broken = ([], raised e)

pub iter_loop : ℕ → File → ℕ → Bool → Iteration
unfolding iter_step
iter_loop zero file last_lsn broken = ([], out_of_fuel)
iter_loop (suc fuel) file last_lsn broken =
    iter_step (iter_loop fuel) (decode_next_wal_record_from_file file) last_lsn broken

-- Each round but the last takes four bytes at least.
unfoldable pub iter_records : Bytes → Iteration
iter_records bytes =
    iter_loop (suc (length bytes)) (record { contents = bytes; position = 0 }) 0 false

-- The assignments in the body of `replay`'s loop.
abbrev pub note_replayed : WalRecord → Wal → Wal
note_replayed r w = record w {
  current_lsn = lsn r;
  stats = record w.stats { records_replayed = w.stats.records_replayed + 1 };
}

module _ {S : Type 0} (callback : WalRecord → S → Result (Unit {0}) × S) where
  -- The loop of `replay`, and the truncation behind it.
  unfoldable pub replay_loop : List (WalRecord × ℕ) → Outcome → ℕ → Wal → S → Outcome × (Wal × S)
  replay_loop [] finished last_good w s = (
    finished,
    (
      record w {
        file = take last_good w.file;
        stats = record w.stats { fsyncs = w.stats.fsyncs + 1 };
      },
      s,
    ),
  )
  replay_loop [] o last_good w s = (o, (w, s))
  replay_loop ((r, position) ∷ rs) o last_good w s =
      let w' = note_replayed r w in
      let called = callback r s in
      let rest = replay_loop rs o position w' called.1 in
      elim called.0 [ ok _ ↦ rest | err e ↦ (raised e, (w', called.1)) ]

  unfoldable pub replay : Wal → S → Outcome × (Wal × S)
  unfolding replay_loop
  replay w s =
      if w.is_open
      then replay_loop (iter_records w.file).0 (iter_records w.file).1 0
          (record w { current_lsn = 0 }) s
      else (raised assertion_error, (w, s))

-- The loop of `truncate_before`: the bytes written to the new file, and how the loop ends.
unfoldable pub rewrite : ℕ → List (WalRecord × ℕ) → Outcome → Bytes → Bytes × Outcome
rewrite n [] o written = (written, o)
rewrite n ((r, _) ∷ rs) o written =
    let keep = encode_wal_record r in
    let skip = rewrite n rs o written in
    let more = λ (b : Bytes). rewrite n rs o (written ++ b) in
    if leb n (lsn r) then elim keep [ ok b ↦ more b | err e ↦ (written, raised e) ] else skip

-- `replace` and the reopened handle, if the new file is complete.
unfoldable pub swap_files : Bytes × Outcome → Wal → Outcome × Wal
swap_files (new, finished) w = (
  finished,
  record w {
    file = new;
    temp = none;
    stats = record w.stats { truncations = w.stats.truncations + 1 };
  },
)
swap_files (new, o) w = (o, record w { temp = some new })

unfoldable pub truncate_before : ℕ → Wal → Outcome × Wal
unfolding rewrite swap_files
truncate_before n w =
    if w.is_open
    then swap_files (rewrite n (iter_records w.file).0 (iter_records w.file).1 []) w
    else (raised assertion_error, w)
