-- ===== src/Access/Drafts.antt =====
-- Who sees a draft, and what a team member may do.
use mathlib.Core.List.{Memᴰ}
use snc_platform.Prelude.{
  ℕ, String, ◌≡◌, refl, sym, ◌∙◌, ◌≢◌, ◌↔◌, ◌⊎◌, inl, inr, Bool, true, false, Option, none, some,
  ◌&&◌, ◌||◌, not, str_eq, str_eq_iff, Bool-cases, arith,
}
use snc_platform.Prelude.Table.{first}
use snc_platform.Prelude.Table.Laws.{first-mem, first-none-All, All-mem}
use snc_platform.Shared.{Result, ok, err}
use snc_platform.Access.{
  MemberRole, owner, editor, viewer, view_private, role_permission, Member, Tables, includes,
  get_user_roles, is_member, member_allows, check_creator_permission, require_draft_access,
  content_not_found,
}
use snc_platform.Access.Entitled.{HasRole, HasRole-iff}

-- On this creator's team, in whatever role.
abbrev pub IsOnTeam : Tables → String → String → Type 0
IsOnTeam t u creator = (m : Member) × Memᴰ m t.members × (m.user_id ≡ u) × (m.creator_id ≡ creator)

-- Every role of a team may see what is private.
view_private_always : (r : MemberRole) → role_permission r view_private ≡ true
unfolding role_permission
view_private_always owner = refl
view_private_always editor = refl
view_private_always viewer = refl

IsOnTeam-iff :
    (t : Tables) (u creator : String)
    → (member_allows (first (is_member u creator) t.members) view_private ≡ true)
      ↔ IsOnTeam t u creator
unfolding member_allows
IsOnTeam-iff t u creator = (to (first (is_member u creator) t.members) refl, from)
  where
    to :
        (o : Option Member)
        → first (is_member u creator) t.members ≡ o
        → member_allows o view_private ≡ true
        → IsOnTeam t u creator
    to none e h = cc h
    to (some m) e h =
        let (at, hit) = first-mem (is_member u creator) t.members e in
        let (a, b) = both (str_eq m.user_id u) (str_eq m.creator_id creator) hit in
        (m, at, (str_eq_iff m.user_id u).0 a, (str_eq_iff m.creator_id creator).0 b)
      where
        both : (a b : Bool) → (a && b) ≡ true → (a ≡ true) × (b ≡ true)
        both a b g = ground arith

    from :
        IsOnTeam t u creator
        → member_allows (first (is_member u creator) t.members) view_private ≡ true
    from (m, at, a, b) = found (first (is_member u creator) t.members) refl
      where
        found :
            (o : Option Member)
            → first (is_member u creator) t.members ≡ o
            → member_allows o view_private ≡ true
        found none e =
            let miss =
              All-mem (λ r. is_member u creator r ≡ false) t.members
                (first-none-All (is_member u creator) t.members e) at in
            let hit : is_member u creator m ≡ true =
              rw ((str_eq_iff m.user_id u).1 a) ((str_eq_iff m.creator_id creator).1 b) in
            cc (sym hit ∙ miss)
        found (some x) e = view_private_always x.role

-- The test that a draft's gate comes to.
draft_test : Bool → Bool → Bool → Bool
draft_test blank admin team = not blank && (admin || team)

draft_result : (b : Bool) → Result (Unit {0})
draft_result true = ok tt
draft_result false = err content_not_found

require_draft_access-eq :
    (t : Tables) (u creator : String)
    → require_draft_access t none creator (some u) none
      ≡ draft_result (
          draft_test
            (str_eq u "")
            (includes (get_user_roles t u) "admin")
            (member_allows (first (is_member u creator) t.members) view_private))
unfolding require_draft_access check_creator_permission draft_test draft_result
require_draft_access-eq t u creator = ground arith

draft_passed :
    (a b c : Bool)
    → draft_result (draft_test a b c) ≡ ok tt
    → (a ≡ false) × ((b ≡ true) ⊎ (c ≡ true))
unfolding draft_test draft_result
draft_passed true b c e = cc e
draft_passed false true c e = (refl, inl refl)
draft_passed false false true e = (refl, inr refl)
draft_passed false false false e = cc e

draft_passes :
    (a b c : Bool) → a ≡ false → (b ≡ true) ⊎ (c ≡ true) → draft_result (draft_test a b c) ≡ ok tt
unfolding draft_test draft_result
draft_passes true b c e h = cc e
draft_passes false true c e h = refl
draft_passes false false true e h = refl
draft_passes false false false e (inl h) = cc h
draft_passes false false false e (inr h) = cc h

named_iff : (u : String) → (str_eq u "" ≡ false) ↔ (u ≢ "")
named_iff u = (
  λ e same. cc (sym e ∙ (str_eq_iff u "").1 same),
  λ h. elim (Bool-cases (str_eq u "")) [
    | inl hit ↦ absurd (h ((str_eq_iff u "").0 hit))
    | inr miss ↦ miss
  ],
)

draft_iff :
    (t : Tables) (u creator : String)
    → (require_draft_access t none creator (some u) none ≡ ok tt)
      ↔ ((u ≢ "") × (HasRole t u "admin" ⊎ IsOnTeam t u creator))
draft_iff t u creator = (to, from)
  where
    to :
        require_draft_access t none creator (some u) none ≡ ok tt
        → (u ≢ "") × (HasRole t u "admin" ⊎ IsOnTeam t u creator)
    to e =
        let (a, bc) = draft_passed _ _ _ (sym (require_draft_access-eq t u creator) ∙ e) in
        (
          (named_iff u).0 a,
          elim bc [
            | inl b ↦ inl ((HasRole-iff t u "admin").0 b)
            | inr c ↦ inr ((IsOnTeam-iff t u creator).0 c)
          ],
        )

    from :
        (u ≢ "") × (HasRole t u "admin" ⊎ IsOnTeam t u creator)
        → require_draft_access t none creator (some u) none ≡ ok tt
    from (a, bc) =
        require_draft_access-eq t u creator
        ∙ draft_passes _ _ _ ((named_iff u).1 a) (elim bc [
          | inl b ↦ inl ((HasRole-iff t u "admin").1 b)
          | inr c ↦ inr ((IsOnTeam-iff t u creator).1 c)
        ])

-- An unpublished piece is shown to a signed-in user exactly when that user is an admin or on the
-- team of the piece's creator, in whatever role; to a visitor, never; a published piece always.
pub require_draft_access_iff :
    (t : Tables) (u creator : String) (user : Option String) (published : ℕ)
    → ((require_draft_access t none creator (some u) none ≡ ok tt)
        ↔ ((u ≢ "") × (HasRole t u "admin" ⊎ IsOnTeam t u creator)))
      × (require_draft_access t none creator none none ≡ err content_not_found)
      × (require_draft_access t (some published) creator user none ≡ ok tt)
unfolding require_draft_access
require_draft_access_iff t u creator user published = (draft_iff t u creator, refl, refl)
