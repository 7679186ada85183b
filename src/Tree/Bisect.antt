-- ===== src/Tree/Bisect.antt =====
-- `bisect_left`, `bisect_right` and `insort` of the standard library, which every search within a
-- page of src/bptreedb/tree.py goes through.
use bptreedb.Prelude.{
  ℕ, zero, suc, ◌+◌, ◌-◌, ◌/◌, ◌≤◌, ◌<◌, ◌≡◌, inl, inr, Bool, true, false, none, some, List, [],
  ◌∷◌, arith, ltb, if◌then◌else◌, length, get_elem?, Bool-cases, All,
}

module _ {ℓ} {A : Type ℓ} where
  -- `goes_right` is the test by which the loop moves `lo` behind the middle.
  goes_right_at : (A → Bool) → List A → ℕ → Bool
  goes_right_at goes_right xs i = elim (get_elem? xs i) [ none ↦ false | some x ↦ goes_right x ]

  bisect_loop : (A → Bool) → List A → ℕ → ℕ → ℕ → ℕ
  unfolding goes_right_at
  bisect_loop goes_right xs zero lo hi = lo
  bisect_loop goes_right xs (suc fuel) lo hi =
      let mid = (lo + hi) / 2 in
      let right = bisect_loop goes_right xs fuel (mid + 1) hi in
      let left = bisect_loop goes_right xs fuel lo mid in
      let narrowed = if goes_right_at goes_right xs mid then right else left in
      if ltb lo hi then narrowed else lo

  -- The range shrinks in each round, so its length bounds the rounds.
  unfoldable pub bisect : (A → Bool) → List A → ℕ
  unfolding bisect_loop
  bisect goes_right xs = bisect_loop goes_right xs (length xs) 0 (length xs)

  -- The number of elements at the front that go right.
  unfoldable pub front : (A → Bool) → List A → ℕ
  front p [] = 0
  front p (x ∷ xs) = if p x then suc (front p xs) else 0

  -- No element goes right behind one that does not.
  abbrev pub Falls : (A → Bool) → List A → Type ℓ
  Falls p [] = Unit
  Falls p (x ∷ xs) = (p x ≡ false → All (λ y. p y ≡ false) xs) × Falls p xs

  pub front-le : (p : A → Bool) (xs : List A) → front p xs ≤ length xs
  unfolding front
  front-le p [] = omega arith
  front-le p (x ∷ xs) = ground (arith, front-le p xs)

  All-at :
      (p : A → Bool) (xs : List A) (i : ℕ)
      → All (λ y. p y ≡ false) xs
      → i < length xs
      → goes_right_at p xs i ≡ false
  unfolding goes_right_at
  All-at p [] i h lt = elim lt [ ]
  All-at p (x ∷ xs) zero h lt = h.0
  All-at p (x ∷ xs) (suc i) h lt = All-at p xs i h.1 (omega arith)

  below_front : (p : A → Bool) (xs : List A) (i : ℕ) → i < front p xs → goes_right_at p xs i ≡ true
  unfolding goes_right_at front
  below_front p [] i h = elim h [ ]
  below_front p (x ∷ xs) zero h = ground arith
  below_front p (x ∷ xs) (suc i) h = ground (arith, below_front p xs i)

  behind_front :
      (p : A → Bool) (xs : List A) (i : ℕ)
      → Falls p xs
      → front p xs ≤ i
      → i < length xs
      → goes_right_at p xs i ≡ false
  unfolding goes_right_at front
  behind_front p [] i f h lt = elim lt [ ]
  behind_front p (x ∷ xs) zero f h lt = ground arith
  behind_front p (x ∷ xs) (suc i) f h lt = elim (Bool-cases (p x)) [
    | inl e ↦ behind_front p xs i f.1 (ground arith) (omega arith)
    | inr e ↦ All-at p xs i (f.0 e) (omega arith)
  ]

  bisect_loop-front :
      (p : A → Bool) (xs : List A) (fuel lo hi : ℕ)
      → Falls p xs
      → lo ≤ front p xs
      → front p xs ≤ hi
      → hi ≤ length xs
      → hi - lo ≤ fuel
      → bisect_loop p xs fuel lo hi ≡ front p xs
  unfolding bisect_loop
  bisect_loop-front p xs zero lo hi f l h n enough = omega arith
  bisect_loop-front p xs (suc fuel) lo hi f l h n enough =
      let mid = (lo + hi) / 2 in
      ground (
        arith,
        below_front p xs mid,
        behind_front p xs mid f,
        bisect_loop-front p xs fuel (mid + 1) hi f,
        bisect_loop-front p xs fuel lo mid f,
      )

  -- The binary search finds the place where the elements stop going right.
  pub bisect-front : (p : A → Bool) (xs : List A) → Falls p xs → bisect p xs ≡ front p xs
  unfolding bisect
  bisect-front p xs f =
      bisect_loop-front p xs (length xs) 0 (length xs) f (omega arith) (front-le p xs) (omega arith)
        (omega arith)
