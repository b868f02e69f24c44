-- ===== src/Paging/Query.antt =====
-- The order that the query of a list route puts its rows in.
use mathlib.Core.List.{Perm}
use mathlib.Core.List.Perm
use snc_platform.Prelude.{
  ℕ, ◌<◌, String, ◌≡◌, refl, sym, ap, ◌∙◌, ◌≢◌, ◌⊎◌, inl, inr, Bool, true, false, not, List, [],
  ◌∷◌, arith, Bool-cases, All, ltb, ◌==◌, ◌&&◌, ◌||◌,
}
use snc_platform.Prelude.Table.{insert_by, order_by}
use snc_platform.Prelude.Table.Order.{
  IsOrder, IsSorted, All-mono, All-insert_by, All-order_by, order_by-IsSorted,
}
use snc_platform.Paging.{Row, Direction, ascending, descending, in_order}
use snc_platform.Paging.Order.{IsStrict, IsListed, follows}

-- No two rows have one id.
abbrev pub HasDistinctRows : List Row → Type 0
HasDistinctRows [] = Unit
HasDistinctRows (r ∷ rs) = All (λ q. q.id ≢ r.id) rs × HasDistinctRows rs

insert_by-HasDistinctRows :
    (le : Row → Row → Bool) (r : Row) (xs : List Row)
    → All (λ q. q.id ≢ r.id) xs
    → HasDistinctRows xs
    → HasDistinctRows (insert_by le r xs)
unfolding insert_by
insert_by-HasDistinctRows le r [] h k = (tt, tt)
insert_by-HasDistinctRows le r (x ∷ xs) h k = elim (Bool-cases (le r x)) [
  | inl low ↦ rw low (h, k)
  | inr high ↦
      rw high
        (All-insert_by _ le r xs (λ e. h.0 (sym e)) k.0, insert_by-HasDistinctRows le r xs h.1 k.1)
]

order_by-HasDistinctRows :
    (le : Row → Row → Bool) (rs : List Row) → HasDistinctRows rs → HasDistinctRows (order_by le rs)
unfolding order_by
order_by-HasDistinctRows le [] h = tt
order_by-HasDistinctRows le (r ∷ rs) h =
    insert_by-HasDistinctRows le r (order_by le rs) (All-order_by _ le rs h.0)
      (order_by-HasDistinctRows le rs h.1)

insert_by-perm :
    (le : Row → Row → Bool) (r : Row) (xs : List Row) → Perm (insert_by le r xs) (r ∷ xs)
unfolding insert_by
insert_by-perm le r [] = Perm.rfl
insert_by-perm le r (x ∷ xs) = elim (Bool-cases (le r x)) [
  | inl low ↦ rw low Perm.rfl
  | inr high ↦ rw high (Perm.trans (Perm.cons x (insert_by-perm le r xs)) (Perm.swap r x xs))
]

pub order_by-perm : (le : Row → Row → Bool) (rs : List Row) → Perm (order_by le rs) rs
unfolding order_by
order_by-perm le [] = Perm.rfl
order_by-perm le (r ∷ rs) =
    Perm.trans (insert_by-perm le r (order_by le rs)) (Perm.cons r (order_by-perm le rs))

module _ (less : String → String → Bool) where
  -- The one row is listed before the other: by the time, and by the id where the times agree; the
  -- newest first if descending.
  abbrev pub Precedes : Direction → Row → Row → Type 0
  Precedes ascending r q = (r.time < q.time) ⊎ ((r.time ≡ q.time) × (less r.id q.id ≡ true))
  Precedes descending r q = (q.time < r.time) ⊎ ((q.time ≡ r.time) × (less q.id r.id ≡ true))

  abbrev pub IsInOrder : Direction → List Row → Type 0
  IsInOrder d [] = Unit
  IsInOrder d (r ∷ rs) = All (Precedes d r) rs × IsInOrder d rs

  module _ (strict : IsStrict less) where
    not_less_trans : (i j k : String) → less j i ≡ false → less k j ≡ false → less k i ≡ false
    not_less_trans i j k f g = elim (Bool-cases (less k i)) [
      | inr low ↦ low
      | inl high ↦ elim (Bool-cases (less i j)) [
        | inl up ↦ cc (g, strict.transitive k i j high up)
        | inr same ↦
            let at_j : less k j ≡ true = ap (less k) (sym (strict.connected i j same f)) ∙ high in
            cc (g, at_j)
      ]
    ]

    less_of_distinct : (i j : String) → i ≢ j → less i j ≡ false → less j i ≡ true
    less_of_distinct i j apart f = elim (Bool-cases (less j i)) [
      | inl high ↦ high
      | inr low ↦ absurd (apart (strict.connected i j f low))
    ]

    pub in_order-IsOrder : (d : Direction) → IsOrder (in_order less d)
    in_order-IsOrder ascending = record {
      total = λ a b h. ground (arith, h, strict.asymmetric b.id a.id);
      trans = λ a b c h k. ground (arith, h, k, not_less_trans a.id b.id c.id);
    }
    in_order-IsOrder descending = record {
      total = λ a b h. ground (arith, h, strict.asymmetric a.id b.id);
      trans = λ a b c h k. ground (arith, h, k, not_less_trans c.id b.id a.id);
    }

    -- Rows of distinct ids that are sorted stand strictly one after the other.
    in_order-follows :
        (d : Direction) (r q : Row)
        → q.id ≢ r.id
        → in_order less d r q ≡ true
        → follows less d r q ≡ true
    in_order-follows ascending r q apart h =
        from (less q.id r.id) (less r.id q.id) r.time q.time h (less_of_distinct q.id r.id apart)
      where
        from :
            (a b : Bool) (m n : ℕ)
            → (ltb m n || (m == n && not a)) ≡ true
            → (a ≡ false → b ≡ true)
            → (ltb m n || (n == m && b)) ≡ true
        from true b m n f g = ground (arith, f)
        from false b m n f g = rw (g refl) (ground (arith, f))
    in_order-follows descending r q apart h =
        from (less r.id q.id) (less q.id r.id) r.time q.time h
          (less_of_distinct r.id q.id (λ e. apart (sym e)))
      where
        from :
            (a b : Bool) (m n : ℕ)
            → (ltb n m || (m == n && not a)) ≡ true
            → (a ≡ false → b ≡ true)
            → (ltb n m || (n == m && b)) ≡ true
        from true b m n f g = ground (arith, f)
        from false b m n f g = rw (g refl) (ground (arith, f))

    sorted-IsListed :
        (d : Direction) (rs : List Row)
        → HasDistinctRows rs
        → IsSorted (in_order less d) rs
        → IsListed less d rs
    sorted-IsListed d [] h k = tt
    sorted-IsListed d (r ∷ rs) h k = (both rs h.0 k.0, sorted-IsListed d rs h.1 k.1)
      where
        both :
            (qs : List Row)
            → All (λ q. q.id ≢ r.id) qs
            → All (λ q. in_order less d r q ≡ true) qs
            → All (λ q. follows less d r q ≡ true) qs
        both [] a b = tt
        both (q ∷ qs) a b = (in_order-follows d r q a.0 b.0, both qs a.1 b.1)

    pub order_by-IsListed :
        (d : Direction) (table : List Row)
        → HasDistinctRows table
        → IsListed less d (order_by (in_order less d) table)
    order_by-IsListed d table h =
        sorted-IsListed d _ (order_by-HasDistinctRows (in_order less d) table h)
          (order_by-IsSorted (in_order less d) table (in_order-IsOrder d))

  follows-Precedes : (d : Direction) (r q : Row) → follows less d r q ≡ true → Precedes d r q
  follows-Precedes ascending r q h = from r.time q.time (less r.id q.id) h
    where
      from :
          (m n : ℕ) (b : Bool)
          → (ltb m n || (n == m && b)) ≡ true
          → (m < n) ⊎ ((m ≡ n) × (b ≡ true))
      from m n b f = elim (Bool-cases (ltb m n)) [
        | inl earlier ↦ inl (ground (arith, earlier))
        | inr same ↦ inr (ground (arith, f, same))
      ]
  follows-Precedes descending r q h = from r.time q.time (less q.id r.id) h
    where
      from :
          (m n : ℕ) (b : Bool)
          → (ltb n m || (n == m && b)) ≡ true
          → (n < m) ⊎ ((n ≡ m) × (b ≡ true))
      from m n b f = elim (Bool-cases (ltb n m)) [
        | inl later ↦ inl (ground (arith, later))
        | inr same ↦ inr (ground (arith, f, same))
      ]

  pub listed-IsInOrder : (d : Direction) (rs : List Row) → IsListed less d rs → IsInOrder d rs
  listed-IsInOrder d [] h = tt
  listed-IsInOrder d (r ∷ rs) h =
      (All-mono _ _ rs (λ q. follows-Precedes d r q) h.0, listed-IsInOrder d rs h.1)
