-- ===== src/Access/Gate.antt =====
-- The gate of subscriber content against a description of who is entitled to it.
use snc_platform.Prelude.{
  String, ◌≡◌, refl, sym, ap, ◌∙◌, ◌≢◌, ◌↔◌, ◌⊎◌, inl, inr, Bool, true, false, Option, none, some,
  List, [], ◌∷◌, ◌&&◌, ◌||◌, str_eq, str_eq_iff, if◌then◌else◌, Bool-cases, arith,
}
use snc_platform.Prelude.Table.{select, first, any}
use snc_platform.Prelude.Table.Laws.{any-true_mem, any-of_mem}
use snc_platform.Access.{
  public, subscribers, Plan, UserSubscription, Tables, includes, get_user_roles, is_effective,
  member_creator_ids_of, subscription_of, joined_plans, subscribed_plans, any_platform,
  plan_creators, build_content_access_context, has_content_access, allowed, denied,
  check_content_access, ContentResponse, gated, apply_content_gate, not_empty, has_plan_id,
  plan_creator,
}
use snc_platform.Access.Entitled.{
  Covers, HasPlan, IsEntitled, HasRole-iff, IsTeamMember-iff, is_effective_iff, and_both,
}

-- Whether a plan, as the inner join finds it, covers the creator.
abbrev plan_covers : String → Option Plan → Bool
plan_covers creator none = false
plan_covers creator (some p) =
    str_eq p.type "platform" || includes (plan_creator p.creator_id []) creator

plan_creator-includes :
    (o : Option String) (rest : List String) (x : String)
    → includes (plan_creator o rest) x ≡ (includes (plan_creator o []) x || includes rest x)
plan_creator-includes none rest x = refl
plan_creator-includes (some c) rest x = elim (Bool-cases (str_eq c "")) [
  | inl blank ↦ rw blank
  | inr named ↦ rw named (ground arith)
]

abbrev covered : String → List Plan → Bool
covered creator ps = any_platform ps || includes (plan_creators ps) creator

covered-cons :
    (creator : String) (p : Plan) (ps : List Plan)
    → covered creator (p ∷ ps) ≡ (plan_covers creator (some p) || covered creator ps)
unfolding any_platform plan_creators
covered-cons creator p ps = elim (Bool-cases (str_eq p.type "platform")) [
  | inl wide ↦ rw wide
  | inr own ↦ ground (arith, own, plan_creator-includes p.creator_id (plan_creators ps) creator)
]

add_plan :
    (creator : String) (o : Option Plan) (ps : List Plan)
    → covered creator (elim o [ none ↦ ps | some p ↦ p ∷ ps ])
      ≡ (plan_covers creator o || covered creator ps)
add_plan creator none ps = refl
add_plan creator (some p) ps = covered-cons creator p ps

joined-covers :
    (creator : String) (plans : List Plan) (p : UserSubscription → Bool)
    (ss : List UserSubscription)
    → covered creator (joined_plans plans (select p ss))
      ≡ any (λ s. p s && plan_covers creator (first (has_plan_id s.plan_id) plans)) ss
unfolding joined_plans select any any_platform plan_creators
joined-covers creator plans p [] = refl
joined-covers creator plans p (s ∷ ss) = elim (Bool-cases (p s)) [
  | inr miss ↦ rw miss (joined-covers creator plans p ss)
  | inl hit ↦ rw hit (
      add_plan creator (first (has_plan_id s.plan_id) plans) (joined_plans plans (select p ss))
      ∙ ap (λ b. plan_covers creator (first (has_plan_id s.plan_id) plans) || b)
          (joined-covers creator plans p ss))
]

plan_covers_sound :
    (creator : String) (o : Option Plan)
    → plan_covers creator o ≡ true
    → (p : Plan) × (o ≡ some p) × Covers p creator
plan_covers_sound creator none e = cc e
plan_covers_sound creator (some p) e = (p, refl, by_type (Bool-cases (str_eq p.type "platform")))
  where
    by_creator :
        (o : Option String)
        → includes (plan_creator o []) creator ≡ true
        → (o ≡ some creator) × (creator ≢ "")
    by_creator none g = cc g
    by_creator (some c) g =
        ground (arith, g, str_eq_iff c "", str_eq_iff c creator, str_eq_iff creator "")

    by_type :
        (str_eq p.type "platform" ≡ true) ⊎ (str_eq p.type "platform" ≡ false) → Covers p creator
    by_type (inl wide) = inl ((str_eq_iff p.type "platform").0 wide)
    by_type (inr own) = inr (
      λ same. cc (sym own ∙ (str_eq_iff p.type "platform").1 same),
      (by_creator p.creator_id (rw own at e)).0,
      (by_creator p.creator_id (rw own at e)).1,
    )

plan_covers_complete :
    (creator : String) (p : Plan) → Covers p creator → plan_covers creator (some p) ≡ true
plan_covers_complete creator p (inl wide) = rw ((str_eq_iff p.type "platform").1 wide)
plan_covers_complete creator p (inr (own, at, named)) =
    rw at (ground (arith, str_eq_iff creator "", str_eq_iff creator creator))

has_plan_iff :
    (t : Tables) (u creator : String)
    → (covered creator (subscribed_plans t u) ≡ true) ↔ HasPlan t u (λ p. Covers p creator)
unfolding subscribed_plans
has_plan_iff t u creator = (to, from)
  where
    good : UserSubscription → Bool
    good s =
        subscription_of u t.now s && plan_covers creator (first (has_plan_id s.plan_id) t.plans)

    to :
        covered creator (joined_plans t.plans (select (subscription_of u t.now) t.subscriptions))
          ≡ true
        → HasPlan t u (λ p. Covers p creator)
    to e =
        let (s, m, hit) =
          any-true_mem good t.subscriptions
            (sym (joined-covers creator t.plans (subscription_of u t.now) t.subscriptions) ∙ e) in
        let (a, b) =
          and_both (subscription_of u t.now s)
            (plan_covers creator (first (has_plan_id s.plan_id) t.plans)) hit in
        let (mine, runs) = and_both (str_eq s.user_id u) (is_effective t.now s) a in
        (
          s,
          m,
          (str_eq_iff s.user_id u).0 mine,
          (is_effective_iff t.now s).0 runs,
          plan_covers_sound creator _ b,
        )

    from :
        HasPlan t u (λ p. Covers p creator)
        → covered creator (joined_plans t.plans (select (subscription_of u t.now) t.subscriptions))
          ≡ true
    from (s, m, mine, runs, (p, found, covers)) =
        joined-covers creator t.plans (subscription_of u t.now) t.subscriptions
        ∙ any-of_mem good t.subscriptions m (
            rw (found, (str_eq_iff s.user_id u).1 mine, (is_effective_iff t.now s).1 runs)
              (plan_covers_complete creator p covers))

member_in : (xs : List String) (x : String) → includes xs x ≡ true → not_empty xs ≡ true
member_in [] x e = cc e
member_in (y ∷ ys) x e = refl

-- The test that the gate comes to, for a user.
access_test :
    (t : Tables) (u creator : String)
    → has_content_access (build_content_access_context t (some u) none) creator subscribers ≡ (
        includes (get_user_roles t u) "stakeholder"
        || (not_empty (member_creator_ids_of t u) || covered creator (subscribed_plans t u)))
unfolding has_content_access build_content_access_context
access_test t u creator = ground (arith, member_in (member_creator_ids_of t u) creator)

IsEntitled-iff :
    (t : Tables) (u creator : String)
    → (has_content_access (build_content_access_context t (some u) none) creator subscribers ≡ true)
      ↔ IsEntitled t u creator
IsEntitled-iff t u creator = (
  λ e.
      first_of_three (includes (get_user_roles t u) "stakeholder")
        (not_empty (member_creator_ids_of t u)) (covered creator (subscribed_plans t u)) refl refl
        refl (sym (access_test t u creator) ∙ e),
  λ h. access_test t u creator ∙ any_of_three h,
)
  where
    first_of_three :
        (a b c : Bool)
        → a ≡ includes (get_user_roles t u) "stakeholder"
        → b ≡ not_empty (member_creator_ids_of t u)
        → c ≡ covered creator (subscribed_plans t u)
        → (a || (b || c)) ≡ true
        → IsEntitled t u creator
    first_of_three true b c p q r e = inl ((HasRole-iff t u "stakeholder").0 (sym p))
    first_of_three false true c p q r e = inr (inl ((IsTeamMember-iff t u).0 (sym q)))
    first_of_three false false true p q r e = inr (inr ((has_plan_iff t u creator).0 (sym r)))
    first_of_three false false false p q r e = cc e

    any_of_three :
        IsEntitled t u creator
        → (includes (get_user_roles t u) "stakeholder"
            || (not_empty (member_creator_ids_of t u) || covered creator (subscribed_plans t u)))
          ≡ true
    any_of_three (inl h) = rw ((HasRole-iff t u "stakeholder").1 h)
    any_of_three (inr (inl h)) = ground (arith, (IsTeamMember-iff t u).1 h)
    any_of_three (inr (inr h)) = ground (arith, (has_plan_iff t u creator).1 h)

-- A signed-in user is let through to subscriber content exactly when entitled: a stakeholder, a
-- member of any creator's team, or the holder of a running subscription whose plan is for the
-- platform or for this creator.
pub check_content_access_iff :
    (t : Tables) (u creator : String)
    → (check_content_access t (some u) creator subscribers none ≡ allowed) ↔ IsEntitled t u creator
unfolding check_content_access
check_content_access_iff t u creator = (
  λ e. (IsEntitled-iff t u creator).0 (test_passed _ e),
  λ h. rw ((IsEntitled-iff t u creator).1 h),
)
  where
    test_passed :
        (b : Bool)
        → (if b then allowed else denied "SUBSCRIPTION_REQUIRED" creator) ≡ allowed
        → b ≡ true
    test_passed true e = refl
    test_passed false e = cc e

-- What the gate does to a response: public content passes as it is to anybody. Subscriber content
-- comes to a visitor, and to a user who is not entitled, with neither media URL nor body, and to
-- an entitled user as it is.
pub apply_content_gate-cases :
    (t : Tables) (creator u : String) (user : Option String) (r : ContentResponse)
    → (apply_content_gate t creator public user r none ≡ r)
      × (apply_content_gate t creator subscribers none r none
          ≡ record r { media_url = none; body = none })
      × ((IsEntitled t u creator × (apply_content_gate t creator subscribers (some u) r none ≡ r))
          ⊎ ((¬ IsEntitled t u creator)
              × (apply_content_gate t creator subscribers (some u) r none
                  ≡ record r { media_url = none; body = none })))
unfolding apply_content_gate check_content_access gated
apply_content_gate-cases t creator u user r = (refl, refl, by_test _ refl)
  where
    by_test :
        (b : Bool)
        → has_content_access (build_content_access_context t (some u) none) creator subscribers ≡ b
        → (IsEntitled t u creator
            × (gated (if b then allowed else denied "SUBSCRIPTION_REQUIRED" creator) r ≡ r))
          ⊎ ((¬ IsEntitled t u creator)
              × (gated (if b then allowed else denied "SUBSCRIPTION_REQUIRED" creator) r
                  ≡ record r { media_url = none; body = none }))
    by_test true e = inl ((IsEntitled-iff t u creator).0 e, refl)
    by_test false e = inr (λ h. cc (sym e ∙ (IsEntitled-iff t u creator).1 h), refl)
