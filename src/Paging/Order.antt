-- ===== src/Paging/Order.antt =====
-- The order in which a list is read, and where a row stands in it.
use snc_platform.Prelude.{
  ℕ, zero, suc, ◌≤◌, ◌<◌, String, ◌≡◌, refl, ap, Bool, true, false, some, List, [], ◌∷◌, ◌++◌,
  length, take, arith, All,
}
use snc_platform.Prelude.Table.{select}
use snc_platform.Paging.{Row, Direction, ascending, descending, beyond, last_item}

-- The order of ids in the database is strict and total.
pub record IsStrict (less : String → String → Bool) : Type 0 where
  pub irreflexive : (i : String) → less i i ≡ false
  pub asymmetric : (i j : String) → less i j ≡ true → less j i ≡ false
  pub transitive : (i j k : String) → less i j ≡ true → less j k ≡ true → less i k ≡ true
  pub connected : (i j : String) → less i j ≡ false → less j i ≡ false → i ≡ j

module _ (less : String → String → Bool) (d : Direction) where
  abbrev pub follows : Row → Row → Bool
  follows r q = beyond less d r.time r.id q

  -- The list in the order of the query: each row follows all those before it.
  abbrev pub IsListed : List Row → Type 0
  IsListed [] = Unit
  IsListed (r ∷ rs) = All (λ q. follows r q ≡ true) rs × IsListed rs

module _ (less : String → String → Bool) (strict : IsStrict less) where
  follows_refl : (d : Direction) (r : Row) → follows less d r r ≡ false
  follows_refl ascending r = ground (arith, strict.irreflexive r.id)
  follows_refl descending r = ground (arith, strict.irreflexive r.id)

  follows-asym :
      (d : Direction) (r q : Row) → follows less d r q ≡ true → follows less d q r ≡ false
  follows-asym ascending r q h = ground (arith, h, strict.asymmetric r.id q.id)
  follows-asym descending r q h = ground (arith, h, strict.asymmetric q.id r.id)

  module _ (d : Direction) where
    select-All :
        (l : Row) (rs : List Row)
        → All (λ q. follows less d l q ≡ true) rs
        → select (follows less d l) rs ≡ rs
    unfolding select
    select-All l [] h = refl
    select-All l (r ∷ rs) (e, h) = rw (e, select-All l rs h) refl

    -- What follows a row is the rest of the list.
    pub select-follows :
        (xs ys : List Row) (l : Row)
        → IsListed less d (xs ++ l ∷ ys)
        → select (follows less d l) (xs ++ l ∷ ys) ≡ ys
    unfolding select
    select-follows [] ys l (h, k) = rw (follows_refl d l) (select-All l ys h)
    select-follows (x ∷ xs) ys l (h, k) =
        rw (follows-asym d x l (after xs h)) (select-follows xs ys l k)
      where
        after :
            (zs : List Row)
            → All (λ q. follows less d x q ≡ true) (zs ++ l ∷ ys)
            → follows less d x l ≡ true
        after [] g = g.0
        after (z ∷ zs) g = after zs g.1

-- A list cut after a positive number of rows: what was taken, its last row, and the rest.
pub cut :
    (n : ℕ) (rs : List Row)
    → 1 ≤ n
    → n < length rs
    → (xs : List Row) × (l : Row) × (ys : List Row) × (rs ≡ xs ++ l ∷ ys)
      × (take n rs ≡ xs ++ l ∷ [])
      × (last_item (take n rs) ≡ some l)
cut zero rs p q = absurd (omega (arith, p))
cut (suc n) [] p q = absurd (omega (arith, q))
cut (suc zero) (r ∷ rs) p q = ([], r, rs, refl, refl, refl)
cut (suc (suc n)) (r ∷ []) p q = absurd (omega (arith, q))
cut (suc (suc n)) (r ∷ q ∷ rs) p h =
    let (xs, l, ys, e, f, g) = cut (suc n) (q ∷ rs) (omega arith) (omega (arith, h)) in
    (r ∷ xs, l, ys, ap (λ z. r ∷ z) e, ap (λ z. r ∷ z) f, g)

pub take-take : (n : ℕ) (rs : List Row) → take n (take (suc n) rs) ≡ take n rs
take-take zero rs = refl
take-take (suc n) [] = refl
take-take (suc n) (r ∷ rs) = ap (λ z. r ∷ z) (take-take n rs)

pub take-all : (n : ℕ) (rs : List Row) → length rs ≤ n → take n rs ≡ rs
take-all zero [] h = refl
take-all zero (r ∷ rs) h = absurd (omega (arith, h))
take-all (suc n) [] h = refl
take-all (suc n) (r ∷ rs) h = ap (λ z. r ∷ z) (take-all n rs (omega (arith, h)))
