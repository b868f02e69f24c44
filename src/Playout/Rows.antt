-- ===== src/Playout/Rows.antt =====
-- Queue rows under the statements that the transitions run: identity by id, and how many rows of a
-- channel are playing.
use mathlib.Core.List.{Memᴰ}
use snc_platform.Prelude.{
  ◌≡◌, refl, sym, ap, ◌∙◌, inl, inr, Bool, true, false, List, [], ◌∷◌, ◌++◌, arith, str_eq,
  str_eq_iff, if◌then◌else◌, Bool-cases, All,
}
use snc_platform.Prelude.Table.{update, delete, any}
use snc_platform.Prelude.Table.Laws.{All-mem, any-update, any-append, any-false-All, any-delete}
use snc_platform.Prelude.Table.Order.{All-mono}
use snc_platform.Playout.Store.{QueueRow, has_id}

-- No two rows share an id: the primary key.
abbrev pub HasDistinctIds : List QueueRow → Type 0
HasDistinctIds [] = Unit
HasDistinctIds (r ∷ rs) = (any (has_id r.id) rs ≡ false) × HasDistinctIds rs

-- Every row with the id of a row is that row.
pub same_id_same_row :
    (q : List QueueRow) {r : QueueRow}
    → HasDistinctIds q
    → Memᴰ r q
    → All (λ y. has_id r.id y ≡ true → y ≡ r) q
same_id_same_row [] h m = tt
same_id_same_row (x ∷ xs) {r} h (Memᴰ.head e) = (
  λ _. sym e,
  All-mono (λ y. has_id x.id y ≡ false) (λ y. has_id r.id y ≡ true → y ≡ r) xs
      (λ y miss hit. absurd (clash y miss hit)) (any-false-All (has_id x.id) xs h.0),
)
  where
    clash : (y : QueueRow) → has_id x.id y ≡ false → has_id r.id y ≡ true → ⊥
    clash y miss hit =
        let same : has_id r.id y ≡ has_id x.id y = ap (λ (z : QueueRow). has_id z.id y) e in
        let f : false ≡ true = sym miss ∙ (sym same ∙ hit) in cc f
same_id_same_row (x ∷ xs) {r} h (Memᴰ.tail m) =
    (λ hit. absurd (clash hit), same_id_same_row xs {r = r} h.1 m)
  where
    clash : has_id r.id x ≡ true → ⊥
    clash hit =
        let same : x.id ≡ r.id = (str_eq_iff x.id r.id).0 hit in
        let miss : str_eq r.id x.id ≡ false =
          All-mem (λ y. has_id x.id y ≡ false) xs (any-false-All (has_id x.id) xs h.0) m in
        let yes_it : str_eq r.id x.id ≡ true = (str_eq_iff r.id x.id).1 (sym same) in
        let f : false ≡ true = sym miss ∙ yes_it in cc f

-- A statement that keeps ids keeps them distinct.
pub update-HasDistinctIds :
    (p : QueueRow → Bool) (f : QueueRow → QueueRow) (q : List QueueRow)
    → ((r : QueueRow) → (f r).id ≡ r.id)
    → HasDistinctIds q
    → HasDistinctIds (update p f q)
unfolding update
update-HasDistinctIds p f [] keep h = tt
update-HasDistinctIds p f (x ∷ xs) keep h = (
  rw (same_head (p x)) (rw (any-update (has_id x.id) p f xs (λ r. rw (keep r))) h.0),
  update-HasDistinctIds p f xs keep h.1,
)
  where
    same_head : (b : Bool) → (if b then f x else x).id ≡ x.id
    same_head true = keep x
    same_head false = refl

pub delete-HasDistinctIds :
    (p : QueueRow → Bool) (q : List QueueRow) → HasDistinctIds q → HasDistinctIds (delete p q)
unfolding delete
delete-HasDistinctIds p [] h = tt
delete-HasDistinctIds p (x ∷ xs) h = elim (Bool-cases (p x)) [
  | inl hit ↦ rw hit (delete-HasDistinctIds p xs h.1)
  | inr miss ↦ rw miss (any-delete (has_id x.id) p xs h.0, delete-HasDistinctIds p xs h.1)
]

pub append-HasDistinctIds :
    (q rs : List QueueRow)
    → HasDistinctIds q
    → HasDistinctIds rs
    → All (λ r. any (has_id r.id) q ≡ false) rs
    → HasDistinctIds (q ++ rs)
unfolding any
append-HasDistinctIds [] rs h k f = k
append-HasDistinctIds (x ∷ xs) rs h k f = (
  rw (any-append (has_id x.id) xs rs) (rw h.0 (none_in rs f)),
  append-HasDistinctIds xs rs h.1 k (All-mono _ _ rs (λ r e. ground arith) f),
)
  where
    none_in :
        (ys : List QueueRow)
        → All (λ r. any (has_id r.id) (x ∷ xs) ≡ false) ys
        → any (has_id x.id) ys ≡ false
    none_in [] g = refl
    none_in (y ∷ ys) g = ground (arith, none_in ys g.1, str_eq_iff x.id y.id, str_eq_iff y.id x.id)
