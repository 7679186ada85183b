-- ===== src/Sequence.antt =====
-- Operations of Python's lists and dicts that several parts of the engine use.
use bptreedb.Prelude.{
  ℕ, suc, ◌≡◌, ◌≢◌, refl, ap, ◌∙◌, Option, none, some, List, [], ◌∷◌, ◌++◌, arith, ◌==◌,
  if◌then◌else◌, length, leb,
}
use bptreedb.Exceptions.{
  Result, ok, err, index_error, assertion_error, ◌>>=◌, >>=-eq-ok, ok-injective,
}

-- `xs.pop()`: the rest and the last element.
unfoldable pub pop_last {ℓ} : {A : Type ℓ} → List A → Result (List A × A)
pop_last [] = err index_error
pop_last (x ∷ []) = ok ([], x)
pop_last (x ∷ y ∷ xs) = do (rest, last) ← pop_last (y ∷ xs); ok (x ∷ rest, last)

pub length-pop_last {ℓ} :
    {A : Type ℓ} (xs : List A) (rest : List A) (x : A)
    → pop_last xs ≡ ok (rest, x)
    → length xs ≡ suc (length rest)
unfolding pop_last
length-pop_last [] rest x h = cc
length-pop_last (y ∷ []) rest x h = ap suc (ground arith)
length-pop_last (y ∷ z ∷ xs) rest x h =
    let (r, e, e') = >>=-eq-ok (pop_last (z ∷ xs)) _ h in
    let ih = length-pop_last (z ∷ xs) r.0 r.1 e in
    omega (arith, ih, ap (λ m. length m.0) (ok-injective e'))

pub pop_last-snoc {ℓ} :
    {A : Type ℓ} (xs rest : List A) (x : A) → pop_last xs ≡ ok (rest, x) → xs ≡ rest ++ x ∷ []
unfolding pop_last
pop_last-snoc [] rest x h = cc
pop_last-snoc (y ∷ []) rest x h = ground arith
pop_last-snoc (y ∷ z ∷ xs) rest x h =
    let (r, e, e') = >>=-eq-ok (pop_last (z ∷ xs)) _ h in
    ap (◌∷◌ y) (pop_last-snoc (z ∷ xs) r.0 r.1 e) ∙ ap (λ m. m.0 ++ m.1 ∷ []) (ok-injective e')

pub pop_last-raises {ℓ} : {A : Type ℓ} (xs : List A) → pop_last xs ≢ err assertion_error
unfolding pop_last
pop_last-raises [] e = cc
pop_last-raises (x ∷ []) e = cc
pop_last-raises (x ∷ y ∷ xs) e = ground (arith, pop_last-raises (y ∷ xs))

-- A pop gives back what was appended last.
pub pop_last-append {ℓ} : {A : Type ℓ} (xs : List A) (x : A) → pop_last (xs ++ x ∷ []) ≡ ok (xs, x)
unfolding pop_last
pop_last-append [] x = refl
pop_last-append (y ∷ []) x = refl
pop_last-append (y ∷ z ∷ xs) x = ap (λ m. m >>= λ r. ok (y ∷ r.0, r.1)) (pop_last-append (z ∷ xs) x)

-- A dict with integer keys.
module _ {ℓ} {V : Type ℓ} where
  unfoldable pub get : ℕ → List (ℕ × V) → Option V
  get key [] = none
  get key ((at, value) ∷ items) = if at == key then some value else get key items

  -- `d[key] = value`, at the place of the key if it is there, else at the end
  unfoldable pub put : ℕ → V → List (ℕ × V) → List (ℕ × V)
  put key value [] = (key, value) ∷ []
  put key value ((at, old) ∷ items) =
      if at == key then (key, value) ∷ items else (at, old) ∷ put key value items

  pub get-put :
      (key other : ℕ) (value : V) (items : List (ℕ × V))
      → get other (put key value items) ≡ (if key == other then some value else get other items)
  unfolding get put
  get-put key other value [] = refl
  get-put key other value ((at, old) ∷ items) = ground (arith, get-put key other value items)

  -- `d.pop(key, None)`
  unfoldable pub pop : ℕ → List (ℕ × V) → List (ℕ × V)
  pop key [] = []
  pop key ((at, value) ∷ items) = if at == key then pop key items else (at, value) ∷ pop key items

  pub get-pop :
      (key other : ℕ) (items : List (ℕ × V))
      → get other (pop key items) ≡ (if key == other then none else get other items)
  unfolding get pop
  get-pop key other [] = ground arith
  get-pop key other ((at, value) ∷ items) = ground (arith, get-pop key other items)

-- A set of integers: `add` and `discard`.
unfoldable pub discard : ℕ → List ℕ → List ℕ
discard k [] = []
discard k (j ∷ s) = if j == k then discard k s else j ∷ discard k s

unfoldable pub add : ℕ → List ℕ → List ℕ
unfolding discard
add k s = k ∷ discard k s

insert_sorted : ℕ → List ℕ → List ℕ
insert_sorted k [] = k ∷ []
insert_sorted k (j ∷ s) = if leb k j then k ∷ j ∷ s else j ∷ insert_sorted k s

-- `sorted(s)`
unfoldable pub sorted : List ℕ → List ℕ
unfolding insert_sorted
sorted [] = []
sorted (k ∷ s) = insert_sorted k (sorted s)
