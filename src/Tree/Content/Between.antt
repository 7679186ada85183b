-- ===== src/Tree/Content/Between.antt =====
-- Where the keys of a sorted list of slots stand to a key that lies between two of its parts.
use bptreedb.Prelude.{
  ℕ, ◌≡◌, refl, sym, ap, ◌∙◌, true, false, some, List, [], ◌∷◌, ◌++◌, append_assoc, append-nil,
  if◌then◌else◌, Bool-cases, inl, inr, if_false, All-append,
}
use bptreedb.Struct.{Bytes}
use bptreedb.Keys.{lt_bytes, eq_bytes, lt_bytes_trans, lt_bytes_total, lt_bytes-ne, eq_bytes→eq}
use bptreedb.Entities.{LeafSlot, InternalSlot}
use bptreedb.Codec.Sizes.{LeafSlot-Slot, InternalSlot-Slot}
use bptreedb.Tree.Slots.Order.{Above}
use bptreedb.Tree.Slots.Lookup.{lookup, lookup-Above}
use bptreedb.Tree.Slots.Route.{walk}
use bptreedb.Tree.Content.{Leaf, items, Below, NotBelow, Spread}

pub lt_of_lt_of_not_lt :
    (a b c : Bytes) → lt_bytes a b ≡ true → lt_bytes c b ≡ false → lt_bytes a c ≡ true
lt_of_lt_of_not_lt a b c h n = elim (Bool-cases (lt_bytes a c)) [
  | inl lt ↦ lt
  | inr ge ↦ elim (Bool-cases (lt_bytes c a)) [
    | inl lt ↦ absurd (let bad = lt_bytes_trans c a b lt h in cc)
    | inr le ↦
        absurd (let e = eq_bytes→eq a c (lt_bytes_total a c ge le) in let bad = rw e at h in cc)
  ]
]

Below-mono : (a b : Bytes) (xs : List LeafSlot) → Below a xs → lt_bytes b a ≡ false → Below b xs
Below-mono a b [] h n = tt
Below-mono a b (x ∷ xs) h n = (lt_of_lt_of_not_lt x.key a b h.0 n, Below-mono a b xs h.1 n)

NotBelow-Above :
    (a b : Bytes) (xs : List LeafSlot) → NotBelow a xs → lt_bytes b a ≡ true → Above b xs
NotBelow-Above a b [] h lt = tt
NotBelow-Above a b (x ∷ xs) h lt =
    (lt_of_lt_of_not_lt b a x.key lt h.0, NotBelow-Above a b xs h.1 lt)

pub items-append : (xs ys : List Leaf) → items (xs ++ ys) ≡ items xs ++ items ys
unfolding items
items-append [] ys = refl
items-append ((i, page) ∷ xs) ys =
    ap (λ (zs : List LeafSlot). page.slots ++ zs) (items-append xs ys)
    ∙ sym (append_assoc page.slots (items xs) (items ys))

-- Leaves with a part in their middle to which the key belongs.
pub record Around (key : Bytes) (leaves front middle back : List Leaf) : Type 0 where
  pub parts : leaves ≡ front ++ (middle ++ back)
  pub below : Below key (items front)
  pub above : Above key (items back)

-- The child that a search follows holds the leaves to which the key belongs.
pub Spread-walk :
    (P : ℕ → List Leaf → Type 0) (key : Bytes) (child : ℕ) (slots : List InternalSlot)
    (leaves : List Leaf)
    → Spread P child slots leaves
    → (front : List Leaf) × (middle : List Leaf) × (back : List Leaf) × P
        (walk child slots key)
        middle
      × Around key leaves front middle back
unfolding walk items
Spread-walk P key child [] leaves h =
    ([], leaves, [], h, record { parts = sym (append-nil leaves); below = tt; above = tt })
Spread-walk P key child (s ∷ slots) leaves (front, back, e, first, low, high, rest) =
    elim (Bool-cases (lt_bytes key s.key)) [
      | inl lt ↦ (
        [],
        front,
        back,
        rw lt first,
        record { parts = e; below = tt; above = NotBelow-Above s.key key (items back) high lt },
      )
      | inr ge ↦
          (let (f, m, b, at, around) = Spread-walk P key s.child_page_id slots back rest in
            (
              front ++ f,
              m,
              b,
              rw ge at,
              record {
                parts =
                    e ∙ ap (λ zs. front ++ zs) around.parts ∙ sym (append_assoc front f (m ++ b));
                below = rw (items-append front f) (
                    All-append _ (items front) (items f) (Below-mono s.key key (items front) low ge)
                      around.below);
                above = around.above;
              },
            ))
    ]

-- A search does not look at the other parts.
pub lookup-Around :
    (key : Bytes) (xs ys zs : List LeafSlot)
    → Below key xs
    → Above key zs
    → lookup (xs ++ (ys ++ zs)) key ≡ lookup ys key
unfolding lookup
lookup-Around key [] [] zs low high = lookup-Above zs key high
lookup-Around key [] (y ∷ ys) zs low high =
    ap (λ r. if eq_bytes y.key key then some y.value else r) (lookup-Around key [] ys zs low high)
lookup-Around key (x ∷ xs) ys zs low high =
    if_false _ _ (lt_bytes-ne x.key key low.0) ∙ lookup-Around key xs ys zs low.1 high
