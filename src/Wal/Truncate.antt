-- ===== src/Wal/Truncate.antt =====
-- `truncate_before` of src/bptreedb/wal.py.
use bptreedb.Prelude.{
  ℕ, ◌+◌, ◌≤◌, ◌≡◌, refl, sym, ap, ◌∙◌, false, none, List, [], ◌∷◌, ◌++◌, arith, leb, if◌then◌else◌,
  length, drop, append-nil, append_assoc, if_true, if_false, Bool-cases, inl, inr,
}
use bptreedb.Exceptions.{ok, >>=-eq-ok}
use bptreedb.Struct.{Bytes}
use bptreedb.Entities.{WalRecord, lsn}
use bptreedb.Codec.Wal.{encode_wal_record}
use bptreedb.Codec.Wal.Length.{encoded_size}
use bptreedb.Wal.{Wal, finished, iter_records, rewrite, swap_files, truncate_before}
use bptreedb.Wal.Iterate.{Sequential, encode_all, marks, iter_records_log}
use bptreedb.Wal.Tails.{nil-Stops}
use bptreedb.Wal.Append.{Logged}

unfoldable pub kept_from : ℕ → List WalRecord → List WalRecord
kept_from n [] = []
kept_from n (r ∷ rs) = if leb n (lsn r) then r ∷ kept_from n rs else kept_from n rs

-- The new file gets the encodings of the kept records, byte for byte as they were.
rewrite-marks :
    (n : ℕ) (rs : List WalRecord) (position : ℕ) (bs written : Bytes)
    → encode_all rs ≡ ok bs
    → (kept : Bytes) × (encode_all (kept_from n rs) ≡ ok kept)
      × (rewrite n (marks position rs) finished written ≡ (written ++ kept, finished))
unfolding encode_all kept_from rewrite marks
rewrite-marks n [] position bs written e =
    ([], refl, ap (λ x. (x, finished)) (sym (append-nil written)))
rewrite-marks n (r ∷ rs) position bs written e =
    let (b, e₁, e₂) = >>=-eq-ok (encode_wal_record r) _ e in
    let (bs', e₃, e₄) = >>=-eq-ok (encode_all rs) _ e₂ in
    elim (Bool-cases (leb n (lsn r))) [
      | inl keep ↦
          let (kept, k₁, k₂) =
            rewrite-marks n rs (position + encoded_size r) bs' (written ++ b) e₃ in
          (
            b ++ kept,
            rw (keep, e₁, k₁),
            simp (keep, e₁) (k₂ ∙ ap (λ x. (x, finished)) (append_assoc written b kept)),
          )
      | inr drop ↦
          let (kept, k₁, k₂) = rewrite-marks n rs (position + encoded_size r) bs' written e₃ in
          (kept, rw drop k₁, rw drop k₂)
    ]

kept_from-all :
    (n : ℕ) (first : ℕ) (rs : List WalRecord)
    → Sequential first rs
    → n ≤ first
    → kept_from n rs ≡ rs
unfolding kept_from
kept_from-all n first [] s h = refl
kept_from-all n first (r ∷ rs) s h =
    if_true {b = leb n (lsn r)} _ _ (ground (arith, s.0))
    ∙ ap (◌∷◌ r) (kept_from-all n (first + 1) rs s.1 (omega arith))

-- From `n` on the kept records are consecutive, and end where the log ended.
kept_from-Sequential :
    (n : ℕ) (first : ℕ) (rs : List WalRecord)
    → Sequential first rs
    → first ≤ n
    → n ≤ first + length rs
    → Sequential n (kept_from n rs) × (n + length (kept_from n rs) ≡ first + length rs)
unfolding kept_from
kept_from-Sequential n first [] s lo hi = (tt, omega arith)
kept_from-Sequential n first (r ∷ rs) s lo hi = elim (Bool-cases (leb n (lsn r))) [
  | inl keep ↦
      let same : n ≡ first = ground (arith, s.0) in
      let all = kept_from-all n (first + 1) rs s.1 (omega arith) in
      rw (keep, all, same) ((s.0, s.1), refl)
  | inr drop ↦
      let above : first + 1 ≤ n = ground (arith, s.0) in
      let (seq, len) = kept_from-Sequential n (first + 1) rs s.1 above (omega arith) in
      rw drop (seq, omega (arith, len))
]

-- On an open log of consecutive records, for an LSN that is not below the first record's and at
-- most one above the current one: the call ends without an exception; the log then holds exactly
-- the records with that LSN or a later one, can be appended to with the LSN that was next before,
-- and has no temporary file.
pub truncate_before_log :
    (n : ℕ) (w : Wal) (rs : List WalRecord) (l : Logged w rs)
    → l.first ≤ n
    → n ≤ w.current_lsn + 1
    → (w' : Wal) × (truncate_before n w ≡ (finished, w'))
      × Logged w' (kept_from n rs)
      × (w'.temp ≡ none)
      × (w'.current_lsn ≡ w.current_lsn)
unfolding truncate_before
truncate_before_log n w rs l lo hi =
    let it : iter_records w.file ≡ (marks 0 rs, finished) =
      ap iter_records (sym (append-nil w.file))
      ∙ iter_records_log rs l.first w.file [] finished l.sequential l.holds nil-Stops in
    let (kept, k₁, k₂) = rewrite-marks n rs 0 w.file [] l.holds in
    let (seq, len) = kept_from-Sequential n l.first rs l.sequential lo (omega (arith, l.current)) in
    (
      (swap_files (kept, finished) w).1,
      if_true _ _ l.opened
          ∙ ap (λ x. swap_files (rewrite n x.0 x.1 []) w) it
          ∙ ap (λ x. swap_files x w) k₂,
      record {
        first = n;
        opened = l.opened;
        holds = k₁;
        sequential = seq;
        current = omega (arith, len, l.current);
      },
      refl,
      refl,
    )

-- Of consecutive records with lower LSNs and one with the LSN itself only that one is kept.
pub kept_from-last :
    (n first : ℕ) (rs : List WalRecord) (r : WalRecord)
    → Sequential first rs
    → first + length rs ≤ n
    → lsn r ≡ n
    → kept_from n (rs ++ r ∷ []) ≡ r ∷ []
unfolding kept_from
kept_from-last n first [] r s le e = if_true {b = leb n (lsn r)} _ _ (ground (arith, e))
kept_from-last n first (x ∷ rs) r s le e =
    let below : leb n (lsn x) ≡ false = ground (arith, s.0, le) in
    if_false {b = leb n (lsn x)} _ _ below
    ∙ kept_from-last n (first + 1) rs r s.1 (omega (arith, le)) e
