-- ===== src/Exceptions.antt =====
-- src/bptreedb/exceptions.py, with the built-in exceptions that the engine lets escape. A function
-- that may raise returns a `Result`.
use bptreedb.Prelude.{ℕ, ℤ, Bool, true, false, ◌≡◌, refl}

pub data Error : Type 0 where
  db_closed_error db_corrupted_error db_concurrent_page_modification_error : Error
  db_buffer_pool_overflow_error : Error
  db_checksum_error : ℕ → ℕ → Error
  db_record_too_large_error : ℤ → ℕ → Error
  value_error struct_error eof_error assertion_error key_error index_error zero_division_error :
      Error
  -- No exception of the engine: a loop that needs more rounds than its bound.
  out_of_rounds : Error

-- What a call returns, or the exception that it raises.
pub data Result {ℓ} (V : Type ℓ) : Type ℓ where
  err : Error → Result V
  ok : V → Result V

-- `if not test: raise exception`
abbrev pub guard : (test : Bool) (exception : Error) → Result (Unit {0})
guard false exception = err exception
guard true exception = ok tt

infixl 5 ◌>>=◌
abbrev pub ◌>>=◌ {ℓ κ} :
    {V : Type ℓ} {W : Type κ} (call : Result V) (next : V → Result W) → Result W
err exception >>= next = err exception
ok value >>= next = next value

infixl 5 ◌>>◌
abbrev pub ◌>>◌ {κ} : {W : Type κ} (call : Result (Unit {0})) (after : Result W) → Result W
call >> after = call >>= λ _. after

pub ok-injective {ℓ} : {A : Type ℓ} {a b : A} → ok a ≡ ok b → a ≡ b
ok-injective h = cc

-- Where a chain of calls returned, each of its calls did.
pub >>=-eq-ok {ℓ κ} :
    {V : Type ℓ} {W : Type κ} (call : Result V) (next : V → Result W) {result : W}
    → (call >>= next) ≡ ok result
    → (value : V) × (call ≡ ok value) × (next value ≡ ok result)
>>=-eq-ok (err exception) next returned = cc
>>=-eq-ok (ok value) next returned = (value, refl, returned)
