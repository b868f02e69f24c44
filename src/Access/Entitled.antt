-- ===== src/Access/Entitled.antt =====
-- Who is entitled to subscriber content, and the database queries that answer a part of it.
use mathlib.Core.List.{Memᴰ}
use snc_platform.Prelude.{
  ℕ, ◌<◌, String, ◌≡◌, refl, sym, ap, ◌∙◌, ◌≢◌, ◌↔◌, ◌⊎◌, inl, inr, Bool, true, Option, none, some,
  List, [], ◌∷◌, ◌&&◌, ◌||◌, map, str_eq, str_eq_iff, ltb→lt, lt→ltb, Bool-cases, arith,
}
use snc_platform.Prelude.Table.{select, first, any}
use snc_platform.Prelude.Table.Laws.{any-true_mem, any-of_mem}
use snc_platform.Access.{
  UserRole, Member, Plan, UserSubscription, Tables, includes, get_user_roles, is_effective,
  member_creator_ids_of, role_of_user, not_empty, after, role_name, member_of, member_creator,
  has_plan_id,
}

-- Some row of the user gives the role.
abbrev pub HasRole : Tables → String → String → Type 0
HasRole t u role = (r : UserRole) × Memᴰ r t.user_roles × (r.user_id ≡ u) × (r.role ≡ role)

-- The user is on some creator's team.
abbrev pub IsTeamMember : Tables → String → Type 0
IsTeamMember t u = (m : Member) × Memᴰ m t.members × (m.user_id ≡ u)

-- The subscription is active, or canceled with a period that ends after now.
abbrev pub IsRunning : ℕ → UserSubscription → Type 0
IsRunning now s =
    (s.status ≡ "active")
    ⊎ ((s.status ≡ "canceled") × ((e : ℕ) × (s.current_period_end ≡ some e) × (now < e)))

-- The plan is for the whole platform, or for this creator.
abbrev pub Covers : Plan → String → Type 0
Covers p creator =
    (p.type ≡ "platform") ⊎ ((p.type ≢ "platform") × (p.creator_id ≡ some creator) × (creator ≢ ""))

abbrev pub HasPlan : Tables → String → (Plan → Type 0) → Type 0
HasPlan t u P =
    (s : UserSubscription) × Memᴰ s t.subscriptions
    × (s.user_id ≡ u)
    × IsRunning t.now s
    × ((p : Plan) × (first (has_plan_id s.plan_id) t.plans ≡ some p) × P p)

abbrev pub IsEntitled : Tables → String → String → Type 0
IsEntitled t u creator =
    HasRole t u "stakeholder" ⊎ (IsTeamMember t u ⊎ HasPlan t u (λ p. Covers p creator))

includes-select {ℓ} :
    {R : Type ℓ} (p : R → Bool) (f : R → String) (v : String) (rs : List R)
    → includes (map f (select p rs)) v ≡ any (λ r. p r && str_eq (f r) v) rs
unfolding select any
includes-select p f v [] = refl
includes-select p f v (r ∷ rs) = elim (Bool-cases (p r)) [
  | inl hit ↦ rw hit (ap (λ b. str_eq (f r) v || b) (includes-select p f v rs))
  | inr miss ↦ rw miss (includes-select p f v rs)
]

not_empty-select {ℓ} :
    {R : Type ℓ} (p : R → Bool) (f : R → String) (rs : List R)
    → not_empty (map f (select p rs)) ≡ any p rs
unfolding select any
not_empty-select p f [] = refl
not_empty-select p f (r ∷ rs) = elim (Bool-cases (p r)) [
  | inl hit ↦ rw hit refl
  | inr miss ↦ rw miss (not_empty-select p f rs)
]

pub and_both : (a b : Bool) → (a && b) ≡ true → (a ≡ true) × (b ≡ true)
and_both a b e = ground arith

pub HasRole-iff :
    (t : Tables) (u role : String) → (includes (get_user_roles t u) role ≡ true) ↔ HasRole t u role
unfolding get_user_roles
HasRole-iff t u role = (
  λ e.
      let (r, m, hit) =
        any-true_mem (λ (r : UserRole). role_of_user u r && str_eq r.role role) t.user_roles
          (sym (includes-select (role_of_user u) role_name role t.user_roles) ∙ e) in
      let (a, b) = and_both (str_eq r.user_id u) (str_eq r.role role) hit in
      (r, m, (str_eq_iff r.user_id u).0 a, (str_eq_iff r.role role).0 b),
  λ (r, m, a, b).
      includes-select (role_of_user u) role_name role t.user_roles
      ∙ any-of_mem _ t.user_roles m
          (rw ((str_eq_iff r.user_id u).1 a) ((str_eq_iff r.role role).1 b)),
)

pub IsTeamMember-iff :
    (t : Tables) (u : String) → (not_empty (member_creator_ids_of t u) ≡ true) ↔ IsTeamMember t u
IsTeamMember-iff t u = (
  λ e.
      let (m, at, hit) =
        any-true_mem (member_of u) t.members
          (sym (not_empty-select (member_of u) member_creator t.members) ∙ e) in
      (m, at, (str_eq_iff m.user_id u).0 hit),
  λ (m, at, a).
      not_empty-select (member_of u) member_creator t.members
      ∙ any-of_mem (member_of u) t.members at ((str_eq_iff m.user_id u).1 a),
)

pub is_effective_iff :
    (now : ℕ) (s : UserSubscription) → (is_effective now s ≡ true) ↔ IsRunning now s
unfolding is_effective
is_effective_iff now s = (to, from)
  where
    by_end : (o : Option ℕ) → after o now ≡ true → (e : ℕ) × (o ≡ some e) × (now < e)
    by_end none g = cc g
    by_end (some e) g = (e, refl, ltb→lt now e g)

    to :
        (str_eq s.status "active" || (str_eq s.status "canceled" && after s.current_period_end now))
          ≡ true
        → IsRunning now s
    to e = elim (Bool-cases (str_eq s.status "active")) [
      | inl active ↦ inl ((str_eq_iff s.status "active").0 active)
      | inr other ↦
          let rest : (str_eq s.status "canceled" && after s.current_period_end now) ≡ true =
            (rw other at e) in
          let (a, b) =
            and_both (str_eq s.status "canceled") (after s.current_period_end now) rest in
          inr ((str_eq_iff s.status "canceled").0 a, by_end s.current_period_end b)
    ]

    from :
        IsRunning now s
        → (str_eq s.status "active"
            || (str_eq s.status "canceled" && after s.current_period_end now))
          ≡ true
    from (inl active) = rw ((str_eq_iff s.status "active").1 active)
    from (inr (a, (e, b, c))) =
        let ended : after s.current_period_end now ≡ true = rw (b, lt→ltb now e c) in
        ground (arith, (str_eq_iff s.status "canceled").1 a, ended)
