-- ===== src/Editorial/Graph/Marks.antt =====
-- The visit states, and how many nodes are still unvisited.
use snc_platform.Prelude.{
  ℕ, ◌≤◌, ◌<◌, String, ◌≡◌, refl, ◌≢◌, inl, inr, Bool, true, false, List, [], ◌∷◌, str_eq,
  str_eq_iff, str_eq_refl, Bool-cases, arith,
}
use snc_platform.Prelude.Table.{count_where}
use snc_platform.Editorial.Graph.{VisitState, unvisited, in_progress, done, States, mark, mem}

pub mark-eq : (x : String) (v : VisitState) (st : States) → mark x v st x ≡ v
mark-eq x v st = rw (str_eq_refl x)

pub mark-ne :
    (x y : String) (v : VisitState) (st : States) → str_eq y x ≡ false → mark x v st y ≡ st y
mark-ne x y v st e = rw e

abbrev pub is_unvisited : VisitState → Bool
is_unvisited unvisited = true
is_unvisited _ = false

pub is_unvisited_lem : (v : VisitState) → is_unvisited v ≡ true → v ≡ unvisited
is_unvisited_lem unvisited e = refl
is_unvisited_lem in_progress e = cc
is_unvisited_lem done e = cc

-- The nodes of the list that are unvisited.
abbrev pub left : States → List String → ℕ
left st ks = count_where (λ k. is_unvisited (st k)) ks

abbrev pub NoNew : States → States → Type 0
NoNew st st' = (x : String) → st' x ≡ unvisited → st x ≡ unvisited

still :
    (st st' : States)
    → NoNew st st'
    → (x : String) → is_unvisited (st' x) ≡ true
    → is_unvisited (st x) ≡ true
still st st' h x e = rw (h x (is_unvisited_lem (st' x) e)) refl

pub left_mono : (st st' : States) (ks : List String) → NoNew st st' → left st' ks ≤ left st ks
unfolding count_where
left_mono st st' [] h = omega arith
left_mono st st' (k ∷ ks) h = ground (arith, still st st' h k, left_mono st st' ks h)

pub left_lt :
    (st st' : States) (ks : List String) (x : String)
    → NoNew st st'
    → mem ks x ≡ true
    → st x ≡ unvisited
    → st' x ≢ unvisited
    → left st' ks < left st ks
unfolding count_where
left_lt st st' [] x h m a b = cc m
left_lt st st' (k ∷ ks) x h m a b = elim (Bool-cases (str_eq k x)) [
  | inl here ↦
      let same : k ≡ x = (str_eq_iff k x).0 here in
      let was : is_unvisited (st k) ≡ true = rw (same, a) refl in
      let gone : is_unvisited (st' k) ≡ false = not_unvisited (st' k) (rw same b) in
      ground (arith, was, gone, left_mono st st' ks h)
  | inr later ↦ ground (arith, still st st' h k, left_lt st st' ks x h (rw later at m) a b)
]
  where
    not_unvisited : (v : VisitState) → v ≢ unvisited → is_unvisited v ≡ false
    not_unvisited unvisited e = absurd (e refl)
    not_unvisited in_progress e = refl
    not_unvisited done e = refl
