-- ===== src/Wal/Append.antt =====
-- `_append` of src/bptreedb/wal.py.
use bptreedb.Prelude.{
  ℕ, ◌+◌, ◌≡◌, sym, ap, ◌∙◌, true, List, [], ◌∷◌, ◌++◌, arith, length, length-append, append_assoc,
  append-nil,
}
use bptreedb.Exceptions.{Result, ok, err, >>=-eq-ok, ok-injective}
use bptreedb.Struct.{Bytes}
use bptreedb.Entities.{WalRecord, lsn}
use bptreedb.Codec.Wal.{encode_wal_record}
use bptreedb.Wal.{Wal, append, appended}
use bptreedb.Wal.Iterate.{Sequential, encode_all}

-- The file holds exactly the records, which are consecutive and end at `current_lsn`.
pub record Logged (w : Wal) (rs : List WalRecord) : Type 0 where
  pub first : ℕ
  pub opened : w.is_open ≡ true
  pub holds : encode_all rs ≡ ok w.file
  pub sequential : Sequential first rs
  pub current : w.current_lsn + 1 ≡ first + length rs

pub encode_all-snoc :
    (rs : List WalRecord) (r : WalRecord) (bs b : Bytes)
    → encode_all rs ≡ ok bs
    → encode_wal_record r ≡ ok b
    → encode_all (rs ++ r ∷ []) ≡ ok (bs ++ b)
unfolding encode_all
encode_all-snoc [] r bs b h e = rw e (ap ok (append-nil b ∙ ap (λ x. x ++ b) (ok-injective h)))
encode_all-snoc (x ∷ rs) r bs b h e =
    let (c, e₁, e₂) = >>=-eq-ok (encode_wal_record x) _ h in
    let (cs, e₃, e₄) = >>=-eq-ok (encode_all rs) _ e₂ in
    rw (e₁, encode_all-snoc rs r cs b e₃ e)
      (ap ok (sym (append_assoc c cs b) ∙ ap (λ x. x ++ b) (ok-injective e₄)))

pub Sequential-snoc :
    (first : ℕ) (rs : List WalRecord) (r : WalRecord)
    → Sequential first rs
    → lsn r ≡ first + length rs
    → Sequential first (rs ++ r ∷ [])
Sequential-snoc first [] r s e = (omega (arith, e), tt)
Sequential-snoc first (x ∷ rs) r s e =
    (s.0, Sequential-snoc (first + 1) rs r s.1 (omega (arith, e)))

-- An open log of consecutive records takes a record with the next LSN that can be encoded: the
-- call returns that LSN, and the log holds the record behind those that were there, and has its
-- LSN as the current one.
pub append-Logged :
    (w : Wal) (rs : List WalRecord) (r : WalRecord) (bs : Bytes)
    → Logged w rs
    → encode_wal_record r ≡ ok bs
    → lsn r ≡ w.current_lsn + 1
    → (append r w ≡ ok (lsn r, appended r bs w)) × Logged (appended r bs w) (rs ++ r ∷ [])
unfolding append
append-Logged w rs r bs l e next = (
  rw (l.opened, e),
  record {
    first = l.first;
    opened = l.opened;
    holds = encode_all-snoc rs r w.file bs l.holds e;
    sequential = Sequential-snoc l.first rs r l.sequential (omega (arith, next, l.current));
    current = omega (arith, next, l.current, length-append rs (r ∷ []));
  },
)

module _ {S : Type 0} (callback : WalRecord → S → Result (Unit {0}) × S) where
  -- The callback on each record in turn, as long as it does not raise.
  unfoldable pub apply_all : List WalRecord → S → Result (Unit {0}) × S
  apply_all [] s = (ok tt, s)
  apply_all (r ∷ rs) s =
      let called = callback r s in
      let rest = apply_all rs called.1 in elim called.0 [ ok _ ↦ rest | err e ↦ (err e, called.1) ]

  pub apply_all-ok :
      (r : WalRecord) (rs : List WalRecord) (s t : S)
      → apply_all (r ∷ rs) s ≡ (ok tt, t)
      → ((callback r s).0 ≡ ok tt) × (apply_all rs (callback r s).1 ≡ (ok tt, t))
  unfolding apply_all
  apply_all-ok r rs s t h = ground arith
