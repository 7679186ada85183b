-- ===== src/Keys.antt =====
-- The order of Python's `bytes`: lexicographic, by the values of the bytes.
use bptreedb.Prelude.{
  ◌≡◌, refl, Bool, true, false, [], ◌∷◌, arith, ltb, ◌==◌, if◌then◌else◌, ==-refl,
}
use bptreedb.Struct.{Bytes}

-- `a < b`
unfoldable pub lt_bytes : Bytes → Bytes → Bool
lt_bytes [] [] = false
lt_bytes [] (y ∷ ys) = true
lt_bytes (x ∷ xs) [] = false
lt_bytes (x ∷ xs) (y ∷ ys) = if x == y then lt_bytes xs ys else ltb x y

-- `a == b`
unfoldable pub eq_bytes : Bytes → Bytes → Bool
eq_bytes [] [] = true
eq_bytes [] (y ∷ ys) = false
eq_bytes (x ∷ xs) [] = false
eq_bytes (x ∷ xs) (y ∷ ys) = if x == y then eq_bytes xs ys else false

pub eq_bytes→eq : (a b : Bytes) → eq_bytes a b ≡ true → a ≡ b
unfolding eq_bytes
eq_bytes→eq [] [] h = refl
eq_bytes→eq [] (y ∷ ys) h = cc
eq_bytes→eq (x ∷ xs) [] h = cc
eq_bytes→eq (x ∷ xs) (y ∷ ys) h = ground (arith, eq_bytes→eq xs ys)

pub eq_bytes_refl : (a : Bytes) → eq_bytes a a ≡ true
unfolding eq_bytes
eq_bytes_refl [] = refl
eq_bytes_refl (x ∷ xs) = rw (==-refl x, eq_bytes_refl xs)

pub eq→eq_bytes : (a b : Bytes) → a ≡ b → eq_bytes a b ≡ true
eq→eq_bytes a b e = rw e (eq_bytes_refl b)

pub lt_bytes_irrefl : (a : Bytes) → lt_bytes a a ≡ false
unfolding lt_bytes
lt_bytes_irrefl [] = refl
lt_bytes_irrefl (x ∷ xs) = rw (==-refl x, lt_bytes_irrefl xs)

pub lt_bytes_trans :
    (a b c : Bytes) → lt_bytes a b ≡ true → lt_bytes b c ≡ true → lt_bytes a c ≡ true
unfolding lt_bytes
lt_bytes_trans [] [] c h k = cc
lt_bytes_trans [] (y ∷ ys) [] h k = cc
lt_bytes_trans [] (y ∷ ys) (z ∷ zs) h k = refl
lt_bytes_trans (x ∷ xs) [] c h k = cc
lt_bytes_trans (x ∷ xs) (y ∷ ys) [] h k = cc
lt_bytes_trans (x ∷ xs) (y ∷ ys) (z ∷ zs) h k = ground (arith, lt_bytes_trans xs ys zs)

-- Two keys are equal, or one is below the other.
pub lt_bytes_total :
    (a b : Bytes) → lt_bytes a b ≡ false → lt_bytes b a ≡ false → eq_bytes a b ≡ true
unfolding lt_bytes eq_bytes
lt_bytes_total [] [] h k = refl
lt_bytes_total [] (y ∷ ys) h k = cc
lt_bytes_total (x ∷ xs) [] h k = cc
lt_bytes_total (x ∷ xs) (y ∷ ys) h k = ground (arith, lt_bytes_total xs ys)

pub lt_bytes-ne : (a b : Bytes) → lt_bytes a b ≡ true → eq_bytes a b ≡ false
unfolding lt_bytes eq_bytes
lt_bytes-ne [] [] h = cc
lt_bytes-ne [] (y ∷ ys) h = refl
lt_bytes-ne (x ∷ xs) [] h = refl
lt_bytes-ne (x ∷ xs) (y ∷ ys) h = ground (arith, lt_bytes-ne xs ys)

pub eq_bytes_sym : (a b : Bytes) → eq_bytes a b ≡ eq_bytes b a
unfolding eq_bytes
eq_bytes_sym [] [] = refl
eq_bytes_sym [] (y ∷ ys) = refl
eq_bytes_sym (x ∷ xs) [] = refl
eq_bytes_sym (x ∷ xs) (y ∷ ys) = ground (arith, eq_bytes_sym xs ys)

pub lt_bytes_asym : (a b : Bytes) → lt_bytes a b ≡ true → lt_bytes b a ≡ false
unfolding lt_bytes
lt_bytes_asym [] [] h = refl
lt_bytes_asym [] (y ∷ ys) h = refl
lt_bytes_asym (x ∷ xs) [] h = cc
lt_bytes_asym (x ∷ xs) (y ∷ ys) h = ground (arith, lt_bytes_asym xs ys)
