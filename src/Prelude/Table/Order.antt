-- ===== src/Prelude/Table/Order.antt =====
-- ORDER BY and LIMIT.
use Prim.Native.Nat.{ℕ, zero, suc}
use mathlib.Core.Path.{◌≡◌, refl, ap, sym, ◌∙◌}
use mathlib.Core.Logic.{inl, inr}
use mathlib.Core.Bool.{Bool, true, false}
use mathlib.Core.List.{List, [], ◌∷◌, ◌++◌, Memᴰ}
use native.Mathlib.Omega.{arith}
use snc_platform.Prelude.Tests.{Bool-cases}
use snc_platform.Prelude.Lists.{length, All, take}
use snc_platform.Prelude.Table.{select, insert_by, order_by}

module _ {ℓ} {R : Type ℓ} where
  pub All-take {κ} : (P : R → Type κ) (n : ℕ) (rs : List R) → All P rs → All P (take n rs)
  All-take P zero rs h = tt
  All-take P (suc n) [] h = tt
  All-take P (suc n) (x ∷ rs) h = (h.0, All-take P n rs h.1)

  pub All-select {κ} :
      (P : R → Type κ) (p : R → Bool) (rs : List R)
      → All (λ r. p r ≡ true → P r) rs
      → All P (select p rs)
  unfolding select
  All-select P p [] h = tt
  All-select P p (x ∷ rs) h = elim (Bool-cases (p x)) [
    | inl hit ↦ rw hit (h.0 hit, All-select P p rs h.1)
    | inr miss ↦ rw miss (All-select P p rs h.1)
  ]

  -- What holds of the rows that are found holds of each row that passes.
  pub All-of_select {κ} :
      (P : R → Type κ) (p : R → Bool) (rs : List R)
      → All P (select p rs)
      → All (λ r. p r ≡ true → P r) rs
  unfolding select
  All-of_select P p [] h = tt
  All-of_select P p (x ∷ rs) h = elim (Bool-cases (p x)) [
    | inl hit ↦ let g = (rw hit at h) in (λ _. g.0, All-of_select P p rs g.1)
    | inr miss ↦ (
      λ e. absurd (let f : false ≡ true = sym miss ∙ e in cc f),
      All-of_select P p rs (rw miss at h),
    )
  ]

  pub All-insert_by {κ} :
      (P : R → Type κ) (le : R → R → Bool) (r : R) (rs : List R)
      → P r
      → All P rs
      → All P (insert_by le r rs)
  unfolding insert_by
  All-insert_by P le r [] h hs = (h, tt)
  All-insert_by P le r (x ∷ xs) h hs = elim (Bool-cases (le r x)) [
    | inl low ↦ rw low (h, hs)
    | inr high ↦ rw high (hs.0, All-insert_by P le r xs h hs.1)
  ]

  pub All-order_by {κ} :
      (P : R → Type κ) (le : R → R → Bool) (rs : List R) → All P rs → All P (order_by le rs)
  unfolding order_by
  All-order_by P le [] h = tt
  All-order_by P le (x ∷ rs) h =
      All-insert_by P le x (order_by le rs) h.0 (All-order_by P le rs h.1)

  All-of_insert_by {κ} :
      (P : R → Type κ) (le : R → R → Bool) (r : R) (rs : List R)
      → All P (insert_by le r rs)
      → P r × All P rs
  unfolding insert_by
  All-of_insert_by P le r [] h = h
  All-of_insert_by P le r (x ∷ xs) h = elim (Bool-cases (le r x)) [
    | inl low ↦ (rw low at h)
    | inr high ↦
        let g = (rw high at h) in
        let (here, rest) = All-of_insert_by P le r xs g.1 in (here, (g.0, rest))
  ]

  pub All-of_order_by {κ} :
      (P : R → Type κ) (le : R → R → Bool) (rs : List R) → All P (order_by le rs) → All P rs
  unfolding order_by
  All-of_order_by P le [] h = tt
  All-of_order_by P le (x ∷ rs) h =
      let (here, rest) = All-of_insert_by P le x (order_by le rs) h in
      (here, All-of_order_by P le rs rest)

  abbrev pub IsSorted : (R → R → Bool) → List R → Type 0
  IsSorted le [] = Unit
  IsSorted le (x ∷ xs) = All (λ y. le x y ≡ true) xs × IsSorted le xs

  -- The order of a query: any two rows compare, and the comparison is transitive.
  pub record IsOrder (le : R → R → Bool) : Type ℓ where
    pub total : (a b : R) → le a b ≡ false → le b a ≡ true
    pub trans : (a b c : R) → le a b ≡ true → le b c ≡ true → le a c ≡ true

  pub All-mono {κ μ} :
      (P : R → Type κ) (Q : R → Type μ) (rs : List R) → ((r : R) → P r → Q r) → All P rs → All Q rs
  All-mono P Q [] f h = tt
  All-mono P Q (x ∷ rs) f h = (f x h.0, All-mono P Q rs f h.1)

  insert_by-IsSorted :
      (le : R → R → Bool) (r : R) (rs : List R)
      → IsOrder le
      → IsSorted le rs
      → IsSorted le (insert_by le r rs)
  unfolding insert_by
  insert_by-IsSorted le r [] o h = (tt, tt)
  insert_by-IsSorted le r (x ∷ xs) o h = elim (Bool-cases (le r x)) [
    | inl low ↦ rw low (
      (low, All-mono (λ y. le x y ≡ true) (λ y. le r y ≡ true) xs (λ y e. o.trans r x y low e) h.0),
      h,
    )
    | inr high ↦ rw high (
      All-insert_by (λ y. le x y ≡ true) le r xs (o.total r x high) h.0,
      insert_by-IsSorted le r xs o h.1,
    )
  ]

  pub order_by-IsSorted :
      (le : R → R → Bool) (rs : List R) → IsOrder le → IsSorted le (order_by le rs)
  unfolding order_by
  order_by-IsSorted le [] o = tt
  order_by-IsSorted le (x ∷ rs) o =
      insert_by-IsSorted le x (order_by le rs) o (order_by-IsSorted le rs o)

  pub All-self : (rs : List R) → All (λ r. Memᴰ r rs) rs
  All-self [] = tt
  All-self (x ∷ rs) = (
    Memᴰ.head refl,
    All-mono (λ r. Memᴰ r rs) (λ r. Memᴰ r (x ∷ rs)) rs (λ r m. Memᴰ.tail m) (All-self rs),
  )

  pub length-insert_by :
      (le : R → R → Bool) (r : R) (rs : List R) → length (insert_by le r rs) ≡ suc (length rs)
  unfolding insert_by
  length-insert_by le r [] = refl
  length-insert_by le r (x ∷ xs) = ground (arith, length-insert_by le r xs)

  pub length-order_by : (le : R → R → Bool) (rs : List R) → length (order_by le rs) ≡ length rs
  unfolding order_by
  length-order_by le [] = refl
  length-order_by le (x ∷ rs) =
      length-insert_by le x (order_by le rs) ∙ ap suc (length-order_by le rs)

  -- A row that sorts strictly before all others, though it is stored last, comes first.
  pub order_by-last_first :
      (le : R → R → Bool) (rs : List R) (r : R)
      → All (λ x. le x r ≡ false) rs
      → order_by le (rs ++ r ∷ []) ≡ r ∷ order_by le rs
  unfolding order_by insert_by
  order_by-last_first le [] r h = refl
  order_by-last_first le (x ∷ xs) r h = rw (order_by-last_first le xs r h.1) (rw h.0)
