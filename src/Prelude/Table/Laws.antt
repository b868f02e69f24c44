-- ===== src/Prelude/Table/Laws.antt =====
-- What the statements on a table do to its rows: counts, membership and what stays.
use mathlib.Core.List.{Memᴰ}
use Prim.Native.Nat.{◌+◌, ◌≤◌}
use mathlib.Core.Path.{◌≡◌, refl, sym, subst}
use mathlib.Core.Logic.{inl, inr}
use mathlib.Core.Bool.{Bool, true, false, ◌||◌}
use mathlib.Core.List.{List, [], ◌∷◌, ◌++◌}
use mathlib.Core.Option.{none, some}
use native.Mathlib.Omega.{arith}
use snc_platform.Prelude.Tests.{Bool-cases}
use snc_platform.Prelude.Lists.{length, All}
use snc_platform.Prelude.Table.{select, update, delete, count_where, first, any}

module _ {ℓ} {R : Type ℓ} where
  pub All-mem {κ} : (P : R → Type κ) (rs : List R) {r : R} → All P rs → Memᴰ r rs → P r
  All-mem P [] h m = elim m [ ]
  All-mem P (x ∷ rs) h (Memᴰ.head e) = subst P (sym e) h.0
  All-mem P (x ∷ rs) h (Memᴰ.tail m) = All-mem P rs h.1 m

  pub first-mem :
      (p : R → Bool) (rs : List R) {r : R} → first p rs ≡ some r → Memᴰ r rs × (p r ≡ true)
  unfolding first
  first-mem p [] e = cc
  first-mem p (x ∷ rs) {r} e = elim (Bool-cases (p x)) [
    | inl hit ↦ let same : x ≡ r = ground arith in (Memᴰ.head (sym same), rw (← same) hit)
    | inr miss ↦ let (m, h) = first-mem p rs {r = r} (ground arith) in (Memᴰ.tail m, h)
  ]

  -- No first row means that no row passes.
  pub first-eq-none : (p : R → Bool) (rs : List R) → first p rs ≡ none → count_where p rs ≡ 0
  unfolding first count_where
  first-eq-none p [] e = refl
  first-eq-none p (x ∷ rs) e = ground (arith, first-eq-none p rs)

  pub first-none-All : (p : R → Bool) (rs : List R) → first p rs ≡ none → All (λ r. p r ≡ false) rs
  unfolding first
  first-none-All p [] e = tt
  first-none-All p (x ∷ rs) e = (ground arith, first-none-All p rs (ground arith))

  pub count_where-append :
      (p : R → Bool) (xs ys : List R)
      → count_where p (xs ++ ys) ≡ count_where p xs + count_where p ys
  unfolding count_where
  count_where-append p [] ys = omega arith
  count_where-append p (x ∷ xs) ys = ground (arith, count_where-append p xs ys)

  pub count_where-All :
      (p : R → Bool) (rs : List R) → All (λ r. p r ≡ true) rs → count_where p rs ≡ length rs
  unfolding count_where
  count_where-All p [] h = refl
  count_where-All p (x ∷ rs) h = ground (arith, count_where-All p rs h.1)

  pub count_where-All-false :
      (p : R → Bool) (rs : List R) → All (λ r. p r ≡ false) rs → count_where p rs ≡ 0
  unfolding count_where
  count_where-All-false p [] h = refl
  count_where-All-false p (x ∷ rs) h = ground (arith, count_where-All-false p rs h.1)

  -- An update that leaves the test alone leaves the count alone.
  pub count_where-update :
      (p q : R → Bool) (f : R → R) (rs : List R)
      → All (λ r. q r ≡ true → p (f r) ≡ p r) rs
      → count_where p (update q f rs) ≡ count_where p rs
  unfolding count_where update
  count_where-update p q f [] h = refl
  count_where-update p q f (x ∷ rs) h = elim (Bool-cases (q x)) [
    | inl hit ↦
        let same : p (f x) ≡ p x = h.0 hit in rw hit (rw (same, count_where-update p q f rs h.1))
    | inr miss ↦ rw miss (rw (count_where-update p q f rs h.1))
  ]

  pub select-append :
      (p : R → Bool) (xs ys : List R) → select p (xs ++ ys) ≡ select p xs ++ select p ys
  unfolding select
  select-append p [] ys = refl
  select-append p (x ∷ xs) ys = ground (arith, select-append p xs ys)

  pub select-All-false : (p : R → Bool) (rs : List R) → All (λ r. p r ≡ false) rs → select p rs ≡ []
  unfolding select
  select-All-false p [] h = refl
  select-All-false p (x ∷ rs) h = ground (arith, select-All-false p rs h.1)

  -- The rows that a test finds are untouched by an update of others.
  pub select-update :
      (p q : R → Bool) (f : R → R) (rs : List R)
      → All (λ r. q r ≡ true → (p r ≡ false) × (p (f r) ≡ false)) rs
      → select p (update q f rs) ≡ select p rs
  unfolding select update
  select-update p q f [] h = refl
  select-update p q f (x ∷ rs) h = elim (Bool-cases (q x)) [
    | inl hit ↦ let (old, new) = h.0 hit in rw hit (rw new (rw (old, select-update p q f rs h.1)))
    | inr miss ↦ rw miss (rw (select-update p q f rs h.1))
  ]

  pub select-delete :
      (p q : R → Bool) (rs : List R)
      → All (λ r. q r ≡ true → p r ≡ false) rs
      → select p (delete q rs) ≡ select p rs
  unfolding select delete
  select-delete p q [] h = refl
  select-delete p q (x ∷ rs) h = elim (Bool-cases (q x)) [
    | inl hit ↦ rw hit (rw (h.0 hit) (select-delete p q rs h.1))
    | inr miss ↦ rw miss (rw (select-delete p q rs h.1))
  ]

  pub count_where-delete :
      (p q : R → Bool) (rs : List R) → count_where p (delete q rs) ≤ count_where p rs
  unfolding count_where delete
  count_where-delete p q [] = omega arith
  count_where-delete p q (x ∷ rs) = ground (arith, count_where-delete p q rs)

  pub any-append : (p : R → Bool) (xs ys : List R) → any p (xs ++ ys) ≡ (any p xs || any p ys)
  unfolding any
  any-append p [] ys = refl
  any-append p (x ∷ xs) ys = ground (arith, any-append p xs ys)

  pub any-update :
      (p q : R → Bool) (f : R → R) (rs : List R)
      → ((r : R) → p (f r) ≡ p r)
      → any p (update q f rs) ≡ any p rs
  unfolding any update
  any-update p q f [] h = refl
  any-update p q f (x ∷ rs) h = ground (arith, h x, any-update p q f rs h)

  pub any-delete : (p q : R → Bool) (rs : List R) → any p rs ≡ false → any p (delete q rs) ≡ false
  unfolding any delete
  any-delete p q [] e = refl
  any-delete p q (x ∷ rs) e = ground (arith, any-delete p q rs)

  pub any-false-All : (p : R → Bool) (rs : List R) → any p rs ≡ false → All (λ r. p r ≡ false) rs
  unfolding any
  any-false-All p [] e = tt
  any-false-All p (x ∷ rs) e = (ground arith, any-false-All p rs (ground arith))

  pub any-true_mem :
      (p : R → Bool) (rs : List R) → any p rs ≡ true → (r : R) × Memᴰ r rs × (p r ≡ true)
  unfolding any
  any-true_mem p [] e = cc
  any-true_mem p (x ∷ rs) e = elim (Bool-cases (p x)) [
    | inl hit ↦ (x, Memᴰ.head refl, hit)
    | inr miss ↦ let (r, m, h) = any-true_mem p rs (ground arith) in (r, Memᴰ.tail m, h)
  ]

  pub any-of_mem : (p : R → Bool) (rs : List R) {r : R} → Memᴰ r rs → p r ≡ true → any p rs ≡ true
  unfolding any
  any-of_mem p [] m h = elim m [ ]
  any-of_mem p (x ∷ xs) {r} (Memᴰ.head e) h =
      let here : p x ≡ true = subst (λ y. p y ≡ true) e h in rw here
  any-of_mem p (x ∷ xs) {r} (Memᴰ.tail m) h = ground (arith, any-of_mem p xs {r = r} m h)

pub All-delete {ℓ κ} :
    {R : Type ℓ} (P : R → Type κ) (d : R → Bool) (rs : List R) → All P rs → All P (delete d rs)
unfolding delete
All-delete P d [] h = tt
All-delete P d (r ∷ rs) h = elim (Bool-cases (d r)) [
  | inl hit ↦ rw hit (All-delete P d rs h.1)
  | inr miss ↦ rw miss (h.0, All-delete P d rs h.1)
]

-- A deletion leaves none of what it deletes.
pub any-delete_self {ℓ} : {R : Type ℓ} (d : R → Bool) (rs : List R) → any d (delete d rs) ≡ false
unfolding any delete
any-delete_self d [] = refl
any-delete_self d (r ∷ rs) = elim (Bool-cases (d r)) [
  | inl hit ↦ rw hit (any-delete_self d rs)
  | inr miss ↦ rw miss (rw (miss, any-delete_self d rs))
]
