-- ===== src/Prelude/Table/Stable.antt =====
-- A query's order and its conditions can be exchanged: the sort is stable.
use mathlib.Core.Path.{◌≡◌, refl, ap, sym, ◌∙◌}
use mathlib.Core.Logic.{inl, inr}
use mathlib.Core.Bool.{Bool, true, false}
use mathlib.Core.List.{List, [], ◌∷◌}
use snc_platform.Prelude.Tests.{if◌then◌else◌, Bool-cases}
use snc_platform.Prelude.Lists.{All}
use snc_platform.Prelude.Table.{select, insert_by, order_by}
use snc_platform.Prelude.Table.Order.{IsSorted, IsOrder, All-mono, All-select, order_by-IsSorted}

module _ {ℓ} {R : Type ℓ} (le : R → R → Bool) (o : IsOrder le) (p : R → Bool) where
  insert_by-eq_front :
      (r : R) (xs : List R) → All (λ y. le r y ≡ true) xs → insert_by le r xs ≡ r ∷ xs
  unfolding insert_by
  insert_by-eq_front r [] h = refl
  insert_by-eq_front r (x ∷ xs) h = rw h.0 refl

  select-insert_by_miss :
      (r : R) (xs : List R) → p r ≡ false → select p (insert_by le r xs) ≡ select p xs
  unfolding insert_by select
  select-insert_by_miss r [] miss = rw miss refl
  select-insert_by_miss r (x ∷ xs) miss = elim (Bool-cases (le r x)) [
    | inl low ↦ rw low (rw miss refl)
    | inr high ↦
        rw high (ap (λ (t : List R). if p x then x ∷ t else t) (select-insert_by_miss r xs miss))
  ]

  select-insert_by_hit :
      (r : R) (xs : List R)
      → p r ≡ true
      → IsSorted le xs
      → select p (insert_by le r xs) ≡ insert_by le r (select p xs)
  unfolding insert_by select
  select-insert_by_hit r [] hit h = rw hit refl
  select-insert_by_hit r (x ∷ xs) hit h = elim (Bool-cases (le r x)) [
    | inl low ↦ rw low (
        rw hit (
          sym (
            insert_by-eq_front r (select p (x ∷ xs)) (
              All-select _ p (x ∷ xs)
                (λ _. low, All-mono _ _ xs (λ y e _. o.trans r x y low e) h.0)))))
    | inr high ↦ elim (Bool-cases (p x)) [
      | inl also ↦
          rw (high, also)
            (ap (λ (t : List R). x ∷ t) (select-insert_by_hit r xs hit h.1) ∙ rw high refl)
      | inr not_it ↦ rw (high, not_it) (select-insert_by_hit r xs hit h.1)
    ]
  ]

  pub select-order_by : (rs : List R) → select p (order_by le rs) ≡ order_by le (select p rs)
  unfolding order_by select
  select-order_by [] = refl
  select-order_by (r ∷ rs) = elim (Bool-cases (p r)) [
    | inl hit ↦
        select-insert_by_hit r (order_by le rs) hit (order_by-IsSorted le rs o)
        ∙ rw hit (ap (insert_by le r) (select-order_by rs))
    | inr miss ↦ select-insert_by_miss r (order_by le rs) miss ∙ rw miss (select-order_by rs)
  ]
