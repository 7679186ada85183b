-- ===== src/Tree/Rebalance/Fuel.antt =====
-- The rounds of `_try_redistribute_slots` of src/bptreedb/tree.py.
use bptreedb.Prelude.{
  ℕ, zero, suc, ◌<◌, ◌≡◌, refl, Bool, true, false, Option, none, some, arith, Bool-cases, inl, inr,
  ◌⊎◌, ◌≢◌, sym, ◌∙◌, if_true, if_false, eq_of_some,
}
use bptreedb.Exceptions.{assertion_error, Result, Error, ok, err, ok-injective}
use bptreedb.Tree.Rebalance.{Sides, after_move, redistribute_loop}

module _ {A : Type 0} (under : A → Bool) (move : Sides A → Result (Sides A)) where
  Result-cases : (m : Result (Sides A)) → ((t : Sides A) × (m ≡ ok t)) ⊎ ((e : Error) × (m ≡ err e))
  Result-cases (ok t) = inl (t, refl)
  Result-cases (err e) = inr (e, refl)

  -- One round that does not end the loop by an exception.
  round :
      (continue : Sides A → Result (Option (Sides A))) (m : Result (Sides A)) (o : Option (Sides A))
      → after_move under move continue m ≡ ok o
      → (t : Sides A) × (m ≡ ok t)
        × (((under t.donor ≡ true) × (o ≡ none)) ⊎ ((under t.donor ≡ false) × (continue t ≡ ok o)))
  unfolding after_move
  round continue (err e) o h = cc
  round continue (ok t) o h = elim (Bool-cases (under t.donor)) [
    | inl e ↦ (t, refl, inl (e, ground arith))
    | inr e ↦ (t, refl, inr (e, ground arith))
  ]

  -- What holds before the loop and is kept by each move holds of the pages that it returns; if the
  -- recipient needed a move, both pages are populated then.
  pub redistribute_loop-some :
      (P : Sides A → Type 0)
      → ((t t' : Sides A) → P t → move t ≡ ok t' → P t')
      → (fuel : ℕ) (t u : Sides A) → P t
      → under t.recipient ≡ true
      → redistribute_loop under move fuel t ≡ ok (some u)
      → P u × (under u.recipient ≡ false) × (under u.donor ≡ false)
  unfolding redistribute_loop
  redistribute_loop-some P keep zero t u p h e = cc
  redistribute_loop-some P keep (suc fuel) t u p h e =
      let (t', moved, outcome) =
        round (redistribute_loop under move fuel) (move t) (some u) (sym (if_true _ _ h) ∙ e) in
      elim outcome [
        | inl (_, none') ↦ cc
        | inr (healthy, more) ↦ elim (Bool-cases (under t'.recipient)) [
          | inl again ↦ redistribute_loop-some P keep fuel t' u (keep t t' p moved) again more
          | inr done ↦ last fuel t' u (keep t t' p moved) healthy done more
        ]
      ]
    where
      last :
          (fuel : ℕ) (t' u : Sides A)
          → P t'
          → under t'.donor ≡ false
          → under t'.recipient ≡ false
          → redistribute_loop under move fuel t' ≡ ok (some u)
          → P u × (under u.recipient ≡ false) × (under u.donor ≡ false)
      last zero t' u p' d r e = cc
      last (suc fuel) t' u p' d r e =
          let same : t' ≡ u = eq_of_some (ok-injective (sym (if_false _ _ r) ∙ e)) in
          rw (← same) (p', r, d)

  -- The loop gives up after a move from an underpopulated recipient to an underpopulated donor.
  pub redistribute_loop-none :
      (P : Sides A → Type 0)
      → ((t t' : Sides A) → P t → move t ≡ ok t' → P t')
      → (fuel : ℕ) (t : Sides A) → P t
      → redistribute_loop under move fuel t ≡ ok none
      → (u : Sides A) × (u' : Sides A) × P u
        × (under u.recipient ≡ true)
        × (move u ≡ ok u')
        × (under u'.donor ≡ true)
  unfolding redistribute_loop
  redistribute_loop-none P keep zero t p e = cc
  redistribute_loop-none P keep (suc fuel) t p e = elim (Bool-cases (under t.recipient)) [
    | inr healthy ↦ absurd (some≢none (ok-injective (sym (if_false _ _ healthy) ∙ e)))
    | inl h ↦
        let (t', moved, outcome) =
          round (redistribute_loop under move fuel) (move t) none (sym (if_true _ _ h) ∙ e) in
        elim outcome [
          | inl (bad, _) ↦ (t, t', p, h, moved, bad)
          | inr (_, more) ↦ redistribute_loop-none P keep fuel t' (keep t t' p moved) more
        ]
  ]
    where
      some≢none : {u : Sides A} → some u ≡ none → ⊥
      some≢none h = cc

  -- If each move takes one from the donor's count, and raises nothing but an index error, a round
  -- for each of the donor's slots and one more are enough.
  pub redistribute_loop-ends :
      (size : A → ℕ)
      → ((t t' : Sides A) → move t ≡ ok t' → size t.donor ≡ suc (size t'.donor))
      → ((t : Sides A) → move t ≢ err assertion_error)
      → (fuel : ℕ) (t : Sides A) → size t.donor < fuel
      → redistribute_loop under move fuel t ≢ err assertion_error
  unfolding redistribute_loop after_move
  redistribute_loop-ends size shrinks raises zero t h = elim h [ ]
  redistribute_loop-ends size shrinks raises (suc fuel) t h = elim (Result-cases (move t)) [
    | inr (x, failed) ↦ ground (arith, raises t, failed)
    | inl (t', moved) ↦ rw moved (
        ground (
          arith,
          redistribute_loop-ends size shrinks raises fuel t' (omega (arith, shrinks t t' moved)),
        ))
  ]
