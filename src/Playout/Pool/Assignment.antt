-- ===== src/Playout/Pool/Assignment.antt =====
-- Assigning items to a channel's content pool.
use mathlib.Core.List.{Memᴰ}
use snc_platform.Prelude.{
  String, ◌≡◌, refl, inl, inr, true, none, List, [], ◌∷◌, arith, str_eq_iff, Bool-cases, All,
}
use snc_platform.Prelude.Table.{select, any}
use snc_platform.Prelude.Table.Laws.{any-true_mem}
use snc_platform.Shared.{Result, ok, err}
use snc_platform.Playout.Store.{Content, Store, Env}
use snc_platform.Playout.Pool.{
  creator_scope, resolve_pool_scope, owned_by, disallowed, reject_disallowed, check_assignment,
  assign_content, assign_scoped, assign_checked,
}

-- A content piece of the creator that is not deleted.
abbrev pub IsOwned : String → List Content → String → Type 0
IsOwned creator contents x =
    (c : Content) × Memᴰ c contents × (c.id ≡ x) × (c.creator_id ≡ creator) × (c.deleted_at ≡ none)

owned_by-IsOwned :
    (creator x : String) (contents : List Content)
    → any (owned_by creator x) contents ≡ true
    → IsOwned creator contents x
owned_by-IsOwned creator x contents e =
    let (c, m, good) = any-true_mem (owned_by creator x) contents e in
    (
      c,
      m,
      (str_eq_iff c.id x).0 (ground (arith, good)),
      (str_eq_iff c.creator_id creator).0 (ground (arith, good)),
      ground (arith, good),
    )

disallowed-eq_nil :
    (creator : String) (contents : List Content) (ids : List String)
    → disallowed creator contents ids ≡ []
    → All (IsOwned creator contents) ids
unfolding disallowed select
disallowed-eq_nil creator contents [] e = tt
disallowed-eq_nil creator contents (x ∷ xs) e =
    elim (Bool-cases (any (owned_by creator x) contents)) [
      | inl good ↦ (
        owned_by-IsOwned creator x contents good,
        disallowed-eq_nil creator contents xs (ground arith),
      )
      | inr bad ↦ cc (rw bad at e)
    ]

none_rejected : (d : List String) → reject_disallowed d ≡ ok tt → d ≡ []
unfolding reject_disallowed
none_rejected [] g = refl
none_rejected (x ∷ xs) g = cc

check_assignment-ok :
    (creator : String) (contents : List Content) (ps cs : List String)
    → check_assignment (creator_scope creator) contents ps cs ≡ ok tt
    → (ps ≡ []) × All (IsOwned creator contents) cs
unfolding check_assignment
check_assignment-ok creator contents (p ∷ ps) cs e = cc
check_assignment-ok creator contents [] cs e =
    (refl, disallowed-eq_nil creator contents cs (none_rejected (disallowed creator contents cs) e))

-- On a creator's channel an assignment that succeeds names no platform item, and only content of
-- that creator that is not deleted.
pub assign_content-IsOwned :
    (env : Env) (ch creator : String) (ps cs : List String) (s : Store)
    → resolve_pool_scope ch s ≡ ok (creator_scope creator)
    → (assign_content env ch ps cs s).1 ≡ ok tt
    → (ps ≡ []) × All (IsOwned creator s.contents) cs
unfolding assign_content assign_scoped assign_checked
assign_content-IsOwned env ch creator ps cs s scope e =
    check_assignment-ok creator s.contents ps cs
      (checked (check_assignment (creator_scope creator) s.contents ps cs) (rw scope at e))
  where
    checked : (c : Result (Unit {0})) → (assign_checked env ch ps cs c s).1 ≡ ok tt → c ≡ ok tt
    checked (ok u) g = refl
    checked (err x) g = cc
