-- ===== src/Tree/Split/Balance.antt =====
-- `_choose_split_point` of src/bptreedb/tree.py on a leaf.
use bptreedb.Prelude.{
  ℕ, zero, suc, ◌+◌, ◌-◌, ◌*◌, ◌/◌, ◌≤◌, ◌<◌, ◌≡◌, ◌⊎◌, inl, inr, refl, sym, ap, ◌∙◌, Bool, true,
  false, ◌&&◌, List, [], ◌∷◌, arith, ltb, leb, length, take, drop, All, Bool-cases,
  take-append-drop,
}
use bptreedb.Exceptions.{ok}
use bptreedb.Entities.{LeafSlot}
use bptreedb.Codec.Sizes.{Slot, LeafSlot-Slot, calculate_page_size_lem, body_size, body_size-append}
use bptreedb.Tree.Bisect.{front, Falls, bisect-front, front-le}
use bptreedb.Tree.Split.{
  is_page_underpopulated, cumulative_sizes, last_of, candidates, first_balanced, byte_midpoint,
  choose_split_point, leaf_halves_are_balanced,
}

module _ {A : Type 0} ⦃slot : Slot A⦄ where
  pub length-cumulative_sizes :
      (sum : ℕ) (slots : List A) → length (cumulative_sizes sum slots) ≡ length slots
  unfolding cumulative_sizes
  length-cumulative_sizes sum [] = refl
  length-cumulative_sizes sum (s ∷ slots) =
      ap suc (length-cumulative_sizes (sum + slot.slot_size s true) slots)

  pub last_of-cumulative_sizes :
      (sum : ℕ) (s : A) (slots : List A)
      → last_of (cumulative_sizes sum (s ∷ slots)) ≡ ok (sum + body_size (s ∷ slots))
  unfolding cumulative_sizes last_of body_size
  last_of-cumulative_sizes sum s [] = ap ok (omega arith)
  last_of-cumulative_sizes sum s (t ∷ slots) =
      last_of-cumulative_sizes (sum + slot.slot_size s true) t slots
      ∙ ap ok (unfold body_size in omega arith)

  All-above :
      (h sum : ℕ) (slots : List A)
      → h < sum
      → All (λ x. leb x h ≡ false) (cumulative_sizes sum slots)
  unfolding cumulative_sizes
  All-above h sum [] lt = tt
  All-above h sum (s ∷ slots) lt =
      (ground arith, All-above h (sum + slot.slot_size s true) slots (omega arith))

  pub cumulative_sizes-Falls :
      (h sum : ℕ) (slots : List A) → Falls (λ x. leb x h) (cumulative_sizes sum slots)
  unfolding cumulative_sizes
  cumulative_sizes-Falls h sum [] = tt
  cumulative_sizes-Falls h sum (s ∷ slots) = (
    λ e. All-above h (sum + slot.slot_size s true) slots (ground arith),
    cumulative_sizes-Falls h (sum + slot.slot_size s true) slots,
  )

  -- What stands before the midpoint is at most half; with one more slot it is more than half.
  pub record Midpoint (h sum : ℕ) (slots : List A) (m : ℕ) : Type 0 where
    pub below : sum + body_size (take m slots) ≤ h
    pub beyond : (m ≡ length slots) ⊎ (h < sum + body_size (take (suc m) slots))

  pub front-Midpoint :
      (h sum : ℕ) (slots : List A)
      → sum ≤ h
      → Midpoint h sum slots (front (λ x. leb x h) (cumulative_sizes sum slots))
  unfolding cumulative_sizes front body_size
  front-Midpoint h sum [] le = record { below = omega arith; beyond = inl refl }
  front-Midpoint h sum (s ∷ slots) le = elim (Bool-cases (leb (sum + slot.slot_size s true) h)) [
    | inl e ↦
        let m = front-Midpoint h (sum + slot.slot_size s true) slots (ground arith) in
        rw e (record {
          below = omega (arith, m.below);
          beyond = elim m.beyond [ inl x ↦ inl (ap suc x) | inr x ↦ inr (omega (arith, x)) ];
        })
    | inr e ↦ rw e (record { below = omega arith; beyond = inr (ground arith) })
  ]

  pub body_size-take-drop :
      (i : ℕ) (slots : List A)
      → body_size (take i slots) + body_size (drop i slots) ≡ body_size slots
  body_size-take-drop i slots =
      sym (body_size-append (take i slots) (drop i slots)) ∙ ap body_size (take-append-drop i slots)

  body_size-take-suc :
      (bound i : ℕ) (slots : List A)
      → All (λ s. 5 * slot.slot_size s true ≤ bound) slots
      → 5 * body_size (take (suc i) slots) ≤ 5 * body_size (take i slots) + bound
  unfolding body_size
  body_size-take-suc bound zero [] h = omega arith
  body_size-take-suc bound (suc i) [] h = omega arith
  body_size-take-suc bound zero (s ∷ slots) h = omega (arith, h.0)
  body_size-take-suc bound (suc i) (s ∷ slots) h =
      omega (arith, body_size-take-suc bound i slots h.1)

  body_size-take_all : (i : ℕ) (slots : List A) → length slots ≤ i → body_size (drop i slots) ≡ 0
  unfolding body_size
  body_size-take_all zero [] h = refl
  body_size-take_all zero (s ∷ slots) h = absurd (omega arith)
  body_size-take_all (suc i) [] h = refl
  body_size-take_all (suc i) (s ∷ slots) h = body_size-take_all i slots (omega arith)

  underpopulated_iff :
      (p : ℕ) (slots : List A)
      → 2 * p ≤ 5 * (32 + body_size slots)
      → is_page_underpopulated p slots ≡ false
  unfolding is_page_underpopulated
  underpopulated_iff p slots h = ground (arith, calculate_page_size_lem slots)

-- The test that `first_balanced` makes of a candidate.
abbrev pub Good : (ℕ → Bool) → ℕ → ℕ → Type 0
Good balanced slot_count c = (1 ≤ c) × (c < slot_count) × (balanced c ≡ true)

abbrev AnyGood : (ℕ → Bool) → ℕ → List ℕ → Type 0
AnyGood balanced slot_count [] = ⊥
AnyGood balanced slot_count (c ∷ cs) = Good balanced slot_count c ⊎ AnyGood balanced slot_count cs

first_balanced-Good :
    (balanced : ℕ → Bool) (n : ℕ) (cs : List ℕ) (fallback : ℕ)
    → AnyGood balanced n cs
    → Good balanced n (first_balanced balanced n cs fallback)
unfolding first_balanced
first_balanced-Good balanced n [] fallback h = absurd h
first_balanced-Good balanced n (c ∷ cs) fallback h =
    elim (Bool-cases (leb 1 c && (ltb c n && balanced c))) [
      | inl yes' ↦ rw yes' (ground arith)
      | inr not_good ↦ rw not_good (first_balanced-Good balanced n cs fallback (rest h not_good))
    ]
  where
    rest :
        Good balanced n c ⊎ AnyGood balanced n cs
        → leb 1 c && (ltb c n && balanced c) ≡ false
        → AnyGood balanced n cs
    rest (inl g) e = absurd (ground arith)
    rest (inr a) e = a

candidates-Good :
    (balanced : ℕ → Bool) (n m : ℕ)
    → 1 < n
    → Good balanced n m ⊎ Good balanced n (m + 1)
    → AnyGood balanced n (candidates n m)
unfolding candidates
candidates-Good balanced n m lt h =
    let e : n - 1 ≡ suc (n - 2) = omega arith in
    rw e (elim h [ inl g ↦ inl g | inr g ↦ inr (inl g) ])

-- The two page sizes at a split of a leaf, and what makes them balanced.
leaf_halves-balanced :
    (p i : ℕ) (slots : List LeafSlot)
    → 2 * p ≤ 5 * (32 + body_size (take i slots))
    → 2 * p ≤ 5 * (32 + body_size (drop i slots))
    → leaf_halves_are_balanced p slots i ≡ true
unfolding leaf_halves_are_balanced
leaf_halves-balanced p i slots l r =
    rw (underpopulated_iff p (take i slots) l, underpopulated_iff p (drop i slots) r)

-- At the midpoint, or behind the next slot, both halves are large enough.
Midpoint-Good :
    (p m : ℕ) (slots : List LeafSlot)
    → 112 ≤ p
    → All (λ s. 5 * LeafSlot-Slot.slot_size s true ≤ p - 32) slots
    → p < 32 + body_size slots
    → m ≤ length slots
    → Midpoint (body_size slots / 2) 0 slots m
    → (1 < length slots)
      × (Good (leaf_halves_are_balanced p slots) (length slots) m
          ⊎ Good (leaf_halves_are_balanced p slots) (length slots) (m + 1))
Midpoint-Good p m slots big fits over le mid =
    let at_m = body_size-take-drop m slots in
    let at_next = body_size-take-drop (suc m) slots in
    let step = body_size-take-suc (p - 32) m slots fits in
    let inside : m < length slots = inside_of (le_or_ge m (length slots)) in
    let half : body_size slots / 2 < body_size (take (suc m) slots) = elim mid.beyond [
      | inl e ↦ absurd (omega arith)
      | inr b ↦ omega (arith, b)
    ] in
    let next : m + 1 ≡ suc m = omega arith in
    elim (le_or_ge (2 * p) (5 * (32 + body_size (take m slots)))) [
      | inl enough ↦
          let after_first = not_first m enough in
          (
            omega (arith, after_first, inside),
            inl (
              after_first,
              inside,
              leaf_halves-balanced p m slots enough (omega (arith, mid.below, at_m)),
            ),
          )
      | inr short ↦
          let next_inside : suc m < length slots =
            next_inside_of (le_or_ge (suc m) (length slots)) short in
          (
            omega (arith, next_inside),
            inr (
                rw next (
                  omega arith,
                  next_inside,
                  leaf_halves-balanced p (suc m) slots (omega (arith, half))
                      (omega (arith, short, step, at_next)),
                )),
          )
    ]
  where
    le_or_ge : (a b : ℕ) → (a ≤ b) ⊎ (b < a)
    le_or_ge a b = grind arith

    inside_of : (m ≤ length slots) ⊎ (length slots < m) → m < length slots
    inside_of w = grind (arith, body_size-take-drop m slots, body_size-take_all m slots, mid.below)

    not_first : (k : ℕ) → 2 * p ≤ 5 * (32 + body_size (take k slots)) → 1 ≤ k
    not_first zero h = absurd (unfold body_size in omega arith)
    not_first (suc k) h = omega arith

    next_inside_of :
        (suc m ≤ length slots) ⊎ (length slots < suc m)
        → 5 * (32 + body_size (take m slots)) < 2 * p
        → suc m < length slots
    next_inside_of w short = grind (
      arith,
      body_size-take-drop (suc m) slots,
      body_size-take_all (suc m) slots,
      body_size-take-suc (p - 32) m slots fits,
    )

-- On pages of at least 32 bytes: every overpopulated leaf whose slots take at most a fifth of the
-- space behind the header each is split between two slots, and neither half is underpopulated.
pub choose_split_point-leaf :
    (p : ℕ) (slots : List LeafSlot)
    → 32 ≤ p
    → All (λ s. 5 * LeafSlot-Slot.slot_size s true ≤ p - 32) slots
    → p < 32 + body_size slots
    → (i : ℕ) × (choose_split_point (leaf_halves_are_balanced p slots) slots ≡ ok i)
      × Good (leaf_halves_are_balanced p slots) (length slots) i
unfolding choose_split_point byte_midpoint
choose_split_point-leaf p [] big fits over = absurd (unfold body_size in omega arith)
choose_split_point-leaf p (s ∷ slots) big fits over =
    let all = s ∷ slots in
    let h = body_size all / 2 in
    let m = front (λ x. leb x h) (cumulative_sizes 0 all) in
    let len = length-cumulative_sizes 0 all in
    let (two, good) =
      Midpoint-Good p m all (omega (arith, fits.0)) fits over
        (omega (arith, len, front-le (λ x. leb x h) (cumulative_sizes 0 all)))
        (front-Midpoint h 0 all (omega arith)) in
    let zero_add : 0 + body_size all ≡ body_size all = omega arith in
    (
      first_balanced (leaf_halves_are_balanced p all) (length all) (candidates (length all) m) m,
      rw
          (
            last_of-cumulative_sizes 0 s slots,
            zero_add,
            bisect-front (λ x. leb x h) _ (cumulative_sizes-Falls h 0 all),
            len,
          )
          refl,
      first_balanced-Good (leaf_halves_are_balanced p all) (length all) (candidates (length all) m)
          m (candidates-Good (leaf_halves_are_balanced p all) (length all) m two good),
    )
