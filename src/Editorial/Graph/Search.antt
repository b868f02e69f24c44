-- ===== src/Editorial/Graph/Search.antt =====
-- What a search from a node gives: a cycle, or states in which the node is done and every node that
-- is done is safe. With as much fuel as there are unvisited nodes it gives one of the two.
pub mod Descend
use mathlib.Core.WellFounded.{Acc}
use snc_platform.Prelude.{
  ℕ, zero, suc, ◌+◌, ◌≤◌, ◌<◌, String, ◌≡◌, refl, sym, ap, ◌∙◌, subst, ◌≢◌, ◌⊎◌, inl, inr, Bool,
  true, false, List, [], ◌∷◌, ◌++◌, ◌||◌, str_eq, str_eq_iff, str_eq_refl, if◌then◌else◌,
  Bool-cases, arith, le_trans,
}
use snc_platform.Editorial.Graph.{
  Graph, VisitState, unvisited, in_progress, done, States, mark, mem, keys, neighbors, Outcome,
  found, finished, out_of_fuel, visit_all, dfs_visit, slice_from,
}
use snc_platform.Editorial.Graph.Walks.{
  IsEdge, IsSafe, IsChain, IsLinked, IsCycle, snoc-IsChain, snoc-IsLinked, slice_from-IsCycle,
}
use snc_platform.Editorial.Graph.Marks.{mark-eq, mark-ne, left, NoNew, left_mono, left_lt}

-- How a search changes the states.
pub record Advances (g : Graph) (st st' : States) : Type 0 where
  pub done_kept : (x : String) → st x ≡ done → st' x ≡ done
  pub no_new : NoNew st st'
  pub progress : (x : String) → st' x ≡ in_progress → st x ≡ in_progress

abbrev pub DoneSafe : Graph → States → Type 0
DoneSafe g st = (x : String) → st x ≡ done → IsSafe g x

abbrev pub OnPath : States → List String → Type 0
OnPath st path = (x : String) → st x ≡ in_progress → mem path x ≡ true

-- The neighbors of each node are nodes.
abbrev pub IsClosed : Graph → Type 0
IsClosed g = (u v : String) → IsEdge g u v → mem (keys g) v ≡ true

abbrev pub IsGood : Graph → States → String → Outcome → Type 0
IsGood g st node (found p) = IsCycle g p
IsGood g st node (finished st') = Advances g st st' × DoneSafe g st' × (st' node ≡ done)
IsGood g st node out_of_fuel = ⊥

pub Advances-trans : (g : Graph) (a b c : States) → Advances g a b → Advances g b c → Advances g a c
Advances-trans g a b c h k = record {
  done_kept = λ x e. k.done_kept x (h.done_kept x e);
  no_new = λ x e. h.no_new x (k.no_new x e);
  progress = λ x e. h.progress x (k.progress x e);
}

-- What a search needs of the states and the path.
pub record IsReady (g : Graph) (fuel : ℕ) (node : String) (st : States) (path : List String)
    : Type 0 where
  pub new : st node ≡ unvisited
  pub node_in : mem (keys g) node ≡ true
  pub enough : left st (keys g) ≤ fuel
  pub safe : DoneSafe g st
  pub on_path : OnPath st path
  pub chain : IsChain g path
  pub linked : IsLinked g path node

pub mem-snoc : (xs : List String) (u x : String) → mem (xs ++ u ∷ []) x ≡ (mem xs x || str_eq u x)
mem-snoc [] u x = ground arith
mem-snoc (y ∷ ys) u x = ground (arith, mem-snoc ys u x)

pub Advances-refl : (g : Graph) (st : States) → Advances g st st
Advances-refl g st = record { done_kept = λ x e. e; no_new = λ x e. e; progress = λ x e. e }

-- Marking a node changes no other state.
pub mark-old :
    (n : String) (v : VisitState) (st : States) (w : VisitState)
    → v ≢ w
    → (x : String) → mark n v st x ≡ w
    → st x ≡ w
mark-old n v st w ne x e = elim (Bool-cases (str_eq x n)) [
  | inl same ↦ absurd (ne (sym (rw same refl) ∙ e))
  | inr other ↦ sym (mark-ne n x v st other) ∙ e
]

pub left_marked :
    (st : States) (n : String) (ks : List String)
    → mem ks n ≡ true
    → st n ≡ unvisited
    → left (mark n in_progress st) ks < left st ks
left_marked st n ks m e =
    left_lt st (mark n in_progress st) ks n
      (λ x f. mark-old n in_progress st unvisited (λ c. cc c) x f) m e
      (λ f. absurd (differ (sym (mark-eq n in_progress st) ∙ f)))
  where
    differ : in_progress ≢ unvisited
    differ e = cc e

pub OnPath-snoc :
    (st : States) (path : List String) (n : String)
    → OnPath st path
    → OnPath (mark n in_progress st) (path ++ n ∷ [])
OnPath-snoc st path n h x e = elim (Bool-cases (str_eq x n)) [
  | inl same ↦
      rw (mem-snoc path n x, (str_eq_iff x n).0 same, str_eq_refl n) (true_right (mem path n))
  | inr other ↦ rw (mem-snoc path n x, h x (sym (mark-ne n x in_progress st other) ∙ e)) refl
]
  where
    true_right : (b : Bool) → (b || true) ≡ true
    true_right b = ground arith

-- What holds of a search from where its node is marked holds of it from where it is new.
pub back :
    (g : Graph) (n : String) (st : States)
    → st n ≡ unvisited
    → (out : Outcome) → IsGood g (mark n in_progress st) n out
    → IsGood g st n out
back g n st new (found p) good = good
back g n st new out_of_fuel good = good
back g n st new (finished st') (adv, safe, now) = (
  record {
    done_kept = λ x e. adv.done_kept x (kept x e);
    no_new = λ x e. mark-old n in_progress st unvisited (λ f. cc f) x (adv.no_new x e);
    progress = λ x e. was x e (adv.progress x e);
  },
  safe,
  now,
)
  where
    kept : (x : String) → st x ≡ done → mark n in_progress st x ≡ done
    kept x e = elim (Bool-cases (str_eq x n)) [
      | inl same ↦ absurd (differ (sym new ∙ subst (λ z. st z ≡ done) ((str_eq_iff x n).0 same) e))
      | inr other ↦ mark-ne n x in_progress st other ∙ e
    ]
      where
        differ : unvisited ≢ done
        differ e = cc e

    was :
        (x : String)
        → st' x ≡ in_progress
        → mark n in_progress st x ≡ in_progress
        → st x ≡ in_progress
    was x e f = elim (Bool-cases (str_eq x n)) [
      | inl same ↦
          absurd (differ (sym now ∙ subst (λ z. st' z ≡ in_progress) ((str_eq_iff x n).0 same) e))
      | inr other ↦ sym (mark-ne n x in_progress st other) ∙ f
    ]
      where
        differ : done ≢ in_progress
        differ e = cc e
