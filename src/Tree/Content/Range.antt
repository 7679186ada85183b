-- ===== src/Tree/Content/Range.antt =====
-- The slots of a sorted list whose keys lie in a range.
use bptreedb.Prelude.{
  ◌≡◌, refl, ap, ◌∙◌, Bool, true, false, not, ◌&&◌, Option, none, some, List, [], ◌∷◌, ◌++◌, arith,
  drop, if◌then◌else◌, Bool-cases, inl, inr, if_true, if_false,
}
use bptreedb.Struct.{Bytes}
use bptreedb.Keys.{lt_bytes, lt_bytes_trans, lt_bytes_asym}
use bptreedb.Entities.{LeafSlot}
use bptreedb.Codec.Sizes.{LeafSlot-Slot}
use bptreedb.Tree.Bisect.{front}
use bptreedb.Tree.Slots.{bisect_left}
use bptreedb.Tree.Slots.Order.{Above, IsSorted, bisect_left-front}
use bptreedb.Tree.Scan.{is_at_end}
use bptreedb.Tree.Content.{Below, NotBelow}

-- From the first key that is not below `start`.
unfoldable pub from : Bytes → List LeafSlot → List LeafSlot
from start [] = []
from start (x ∷ xs) = if lt_bytes x.key start then from start xs else x ∷ xs

-- Up to the first key that is not below the end.
unfoldable pub until : Option Bytes → List LeafSlot → List LeafSlot
until end [] = []
until end (x ∷ xs) = if is_at_end end x.key then [] else x ∷ until end xs

-- The key is below the end, if there is one.
unfoldable pub is_below : Option Bytes → Bytes → Bool
is_below none key = true
is_below (some end) key = lt_bytes key end

is_below-at_end : (end : Option Bytes) (key : Bytes) → is_below end key ≡ not (is_at_end end key)
unfolding is_below is_at_end
is_below-at_end none key = refl
is_below-at_end (some end) key = elim (Bool-cases (lt_bytes key end)) [
  | inl y ↦ rw y
  | inr n ↦ rw n
]

-- The slots with a key from `start` on and below the end, if there is one.
unfoldable pub in_range : Bytes → Option Bytes → List LeafSlot → List LeafSlot
in_range start end [] = []
in_range start end (x ∷ xs) =
    if not (lt_bytes x.key start) && is_below end x.key
    then x ∷ in_range start end xs
    else in_range start end xs

NotBelow-behind :
    (start : Bytes) (x : LeafSlot) (xs : List LeafSlot)
    → lt_bytes x.key start ≡ false
    → Above x.key xs
    → NotBelow start xs
NotBelow-behind start x [] ge h = tt
NotBelow-behind start x (y ∷ ys) ge h = (
  elim (Bool-cases (lt_bytes y.key start)) [
    | inl lt ↦ absurd (let bad = lt_bytes_trans x.key y.key start h.0 lt in cc)
    | inr le ↦ le
  ],
  NotBelow-behind start x ys ge h.1,
)

at_end-behind :
    (end : Option Bytes) (x y : LeafSlot)
    → is_at_end end x.key ≡ true
    → lt_bytes x.key y.key ≡ true
    → is_at_end end y.key ≡ true
unfolding is_at_end
at_end-behind none x y h lt = h
at_end-behind (some end) x y h lt = elim (Bool-cases (lt_bytes y.key end)) [
  | inl below ↦ absurd (
      let bad = lt_bytes_trans x.key y.key end lt below in
      let h' : false ≡ true = rw bad at h in cc)
  | inr ge ↦ rw ge
]

in_range-at_end :
    (start : Bytes) (end : Option Bytes) (x : LeafSlot) (xs : List LeafSlot)
    → is_at_end end x.key ≡ true
    → Above x.key xs
    → in_range start end xs ≡ []
unfolding in_range
in_range-at_end start end x [] h above = refl
in_range-at_end start end x (y ∷ ys) h above =
    let y_at_end = at_end-behind end x y h above.0 in
    let over : is_below end y.key ≡ false = is_below-at_end end y.key ∙ ap not y_at_end in
    let rest = in_range-at_end start end x ys h above.1 in rw (over, rest) (ground arith)

until-in_range :
    (start : Bytes) (end : Option Bytes) (xs : List LeafSlot)
    → IsSorted xs
    → NotBelow start xs
    → until end xs ≡ in_range start end xs
unfolding until in_range
until-in_range start end [] sorted h = refl
until-in_range start end (x ∷ xs) sorted h = elim (Bool-cases (is_at_end end x.key)) [
  | inl e ↦ rw (e, h.0, is_below-at_end end x.key, e, in_range-at_end start end x xs e sorted.0)
  | inr n ↦
      rw (n, h.0, is_below-at_end end x.key, n)
        (ap (◌∷◌ x) (until-in_range start end xs sorted.1 h.1))
]

-- On sorted slots the two cuts leave the range.
pub until-from :
    (start : Bytes) (end : Option Bytes) (xs : List LeafSlot)
    → IsSorted xs
    → until end (from start xs) ≡ in_range start end xs
unfolding from until in_range
until-from start end [] sorted = refl
until-from start end (x ∷ xs) sorted = elim (Bool-cases (lt_bytes x.key start)) [
  | inl lt ↦ rw lt (until-from start end xs sorted.1)
  | inr ge ↦
      ap (until end) (if_false _ _ ge)
      ∙ until-in_range start end (x ∷ xs) sorted (ge, NotBelow-behind start x xs ge sorted.0)
]

drop-from :
    (start : Bytes) (xs : List LeafSlot)
    → drop (front (λ s. lt_bytes s.key start) xs) xs ≡ from start xs
unfolding front from
drop-from start [] = refl
drop-from start (x ∷ xs) = elim (Bool-cases (lt_bytes x.key start)) [
  | inl lt ↦ rw lt (drop-from start xs)
  | inr ge ↦ rw ge
]

-- A scan starts on a page at the place that the bisection finds.
pub drop-bisect_left :
    (start : Bytes) (xs : List LeafSlot)
    → IsSorted xs
    → drop (bisect_left xs start) xs ≡ from start xs
drop-bisect_left start xs sorted =
    ap (λ n. drop n xs) (bisect_left-front xs start sorted) ∙ drop-from start xs

from-Above : (start : Bytes) (xs : List LeafSlot) → Above start xs → from start xs ≡ xs
unfolding from
from-Above start [] h = refl
from-Above start (x ∷ xs) h = if_false _ _ (lt_bytes_asym start x.key h.0)

-- The cut leaves out what is below and goes through one part.
pub from-parts :
    (start : Bytes) (xs ys zs : List LeafSlot)
    → Below start xs
    → Above start zs
    → from start (xs ++ (ys ++ zs)) ≡ from start ys ++ zs
unfolding from
from-parts start [] [] zs low high = from-Above start zs high
from-parts start [] (y ∷ ys) zs low high = elim (Bool-cases (lt_bytes y.key start)) [
  | inl lt ↦ rw lt (from-parts start [] ys zs tt high)
  | inr ge ↦ rw ge
]
from-parts start (x ∷ xs) ys zs low high = if_true _ _ low.0 ∙ from-parts start xs ys zs low.1 high
