-- ===== src/Access.antt =====
-- Who may see what: apps/api/src/services/content-access.ts and creator-team.ts, and the role
-- matrix of packages/shared/src/creator.ts. The tables and the clock are arguments; a `Set` of ids
-- is the list it was built from.
pub mod Entitled
pub mod Gate
pub mod Drafts
use snc_platform.Prelude.{
  ℕ, String, Bool, true, false, Option, none, some, List, [], ◌∷◌, ◌&&◌, ◌||◌, str_eq, ltb,
  if◌then◌else◌, map,
}
use snc_platform.Prelude.Table.{select, first}
use snc_platform.Shared.{AppError, Result, ok, err, not_found_error, forbidden_error}

pub data Visibility : Type 0 where
  public subscribers : Visibility

pub data MemberRole : Type 0 where
  owner editor viewer : MemberRole

pub data Permission : Type 0 where
  edit_profile manage_content manage_scheduling manage_members view_private manage_streaming :
      Permission

-- `CREATOR_ROLE_PERMISSIONS`
unfoldable pub role_permission : MemberRole → Permission → Bool
role_permission owner p = true
role_permission editor edit_profile = true
role_permission editor manage_content = true
role_permission editor manage_scheduling = true
role_permission editor manage_members = false
role_permission editor view_private = true
role_permission editor manage_streaming = false
role_permission viewer edit_profile = false
role_permission viewer manage_content = false
role_permission viewer manage_scheduling = false
role_permission viewer manage_members = false
role_permission viewer view_private = true
role_permission viewer manage_streaming = false

pub record UserRole : Type 0 where
  pub user_id : String
  pub role : String

pub record Member : Type 0 where
  pub user_id : String
  pub creator_id : String
  pub role : MemberRole

pub record Plan : Type 0 where
  pub id : String
  pub type : String
  pub creator_id : Option String

pub record UserSubscription : Type 0 where
  pub user_id : String
  pub plan_id : String
  pub status : String
  pub current_period_end : Option ℕ

pub record Tables : Type 0 where
  pub user_roles : List UserRole
  pub members : List Member
  pub plans : List Plan
  pub subscriptions : List UserSubscription
  pub now : ℕ

abbrev pub includes : List String → String → Bool
includes [] x = false
includes (y ∷ ys) x = str_eq y x || includes ys x

abbrev pub role_name : UserRole → String
role_name r = r.role

abbrev role_of_user : String → UserRole → Bool
role_of_user u r = str_eq r.user_id u

-- `getUserRoles` of apps/api/src/auth/user-roles.ts
unfoldable pub get_user_roles : Tables → String → List String
get_user_roles t u = map role_name (select (role_of_user u) t.user_roles)

abbrev pub roles_or : Tables → String → Option (List String) → List String
roles_or t u none = get_user_roles t u
roles_or t u (some roles) = roles

abbrev pub is_member : String → String → Member → Bool
is_member u creator m = str_eq m.user_id u && str_eq m.creator_id creator

-- The permission of the first membership row that the query returns.
unfoldable pub member_allows : Option Member → Permission → Bool
member_allows none p = false
member_allows (some m) p = role_permission m.role p

unfoldable pub check_creator_permission :
    Tables → String → String → Permission → Option (List String) → Bool
check_creator_permission t u creator p roles =
    if includes (roles_or t u roles) "admin"
    then true
    else member_allows (first (is_member u creator) t.members) p

unfoldable pub require_creator_permission :
    Tables → String → String → Permission → Option (List String) → Result (Unit {0})
require_creator_permission t u creator p roles =
    if check_creator_permission t u creator p roles
    then ok tt
    else err (forbidden_error "Insufficient permissions")

-- active, or canceled with the paid period still running
abbrev pub after : Option ℕ → ℕ → Bool
after none now = false
after (some e) now = ltb now e

unfoldable pub is_effective : ℕ → UserSubscription → Bool
is_effective now s =
    str_eq s.status "active" || (str_eq s.status "canceled" && after s.current_period_end now)

pub record AccessContext : Type 0 where
  pub user_id : Option String
  pub roles : List String
  pub member_creator_ids : List String
  pub subscribed_creator_ids : List String
  pub has_platform_subscription : Bool

abbrev pub member_of : String → Member → Bool
member_of u m = str_eq m.user_id u

abbrev pub member_creator : Member → String
member_creator m = m.creator_id

abbrev pub member_creator_ids_of : Tables → String → List String
member_creator_ids_of t u = map member_creator (select (member_of u) t.members)

abbrev pub subscription_of : String → ℕ → UserSubscription → Bool
subscription_of u now s = str_eq s.user_id u && is_effective now s

abbrev pub has_plan_id : String → Plan → Bool
has_plan_id x p = str_eq p.id x

-- The inner join: the plans of the user's effective subscriptions.
unfoldable pub joined_plans : List Plan → List UserSubscription → List Plan
joined_plans plans [] = []
joined_plans plans (s ∷ ss) =
    let rest = joined_plans plans ss in
    elim (first (has_plan_id s.plan_id) plans) [ none ↦ rest | some p ↦ p ∷ rest ]

unfoldable pub subscribed_plans : Tables → String → List Plan
subscribed_plans t u = joined_plans t.plans (select (subscription_of u t.now) t.subscriptions)

-- The loop over the rows: a platform plan sets the flag, another plan adds its creator, if any.
unfoldable pub any_platform : List Plan → Bool
any_platform [] = false
any_platform (p ∷ ps) = str_eq p.type "platform" || any_platform ps

abbrev pub plan_creator : Option String → List String → List String
plan_creator none rest = rest
plan_creator (some c) rest = if str_eq c "" then rest else c ∷ rest

unfoldable pub plan_creators : List Plan → List String
plan_creators [] = []
plan_creators (p ∷ ps) =
    let rest = plan_creators ps in
    if str_eq p.type "platform" then rest else plan_creator p.creator_id rest

abbrev pub not_empty : List String → Bool
not_empty [] = false
not_empty (x ∷ xs) = true

unfoldable pub build_content_access_context :
    Tables → Option String → Option (List String) → AccessContext
build_content_access_context t none roles = record {
  user_id = none;
  roles = [];
  member_creator_ids = [];
  subscribed_creator_ids = [];
  has_platform_subscription = false;
}
build_content_access_context t (some u) roles =
    if includes (roles_or t u roles) "stakeholder" || not_empty (member_creator_ids_of t u)
    then record {
      user_id = some u;
      roles = roles_or t u roles;
      member_creator_ids = member_creator_ids_of t u;
      subscribed_creator_ids = [];
      has_platform_subscription = true;
    }
    else record {
      user_id = some u;
      roles = roles_or t u roles;
      member_creator_ids = member_creator_ids_of t u;
      subscribed_creator_ids = plan_creators (subscribed_plans t u);
      has_platform_subscription = any_platform (subscribed_plans t u);
    }

abbrev pub is_public : Visibility → Bool
is_public public = true
is_public subscribers = false

abbrev pub is_null : Option String → Bool
is_null none = true
is_null (some u) = false

unfoldable pub has_content_access : AccessContext → String → Visibility → Bool
has_content_access ctx creator v =
    if is_public v
    then true
    else if is_null ctx.user_id
    then false
    else if includes ctx.member_creator_ids creator
    then true
    else if includes ctx.roles "stakeholder"
    then true
    else if ctx.has_platform_subscription
    then true
    else includes ctx.subscribed_creator_ids creator

pub data GateResult : Type 0 where
  allowed : GateResult
  denied : (reason creator_id : String) → GateResult

unfoldable pub check_content_access :
    Tables → Option String → String → Visibility → Option (List String) → GateResult
check_content_access t user creator public roles = allowed
check_content_access t none creator subscribers roles = denied "AUTHENTICATION_REQUIRED" creator
check_content_access t (some u) creator subscribers roles =
    if has_content_access (build_content_access_context t (some u) roles) creator subscribers
    then allowed
    else denied "SUBSCRIPTION_REQUIRED" creator

-- The two fields of a response that the gate clears.
pub record ContentResponse : Type 0 where
  pub id : String
  pub media_url : Option String
  pub body : Option String

unfoldable pub gated : GateResult → ContentResponse → ContentResponse
gated allowed r = r
gated (denied reason creator) r = record r { media_url = none; body = none }

unfoldable pub apply_content_gate :
    Tables
    → String
    → Visibility
    → Option String
    → ContentResponse
    → Option (List String)
    → ContentResponse
apply_content_gate t creator public user r roles = r
apply_content_gate t creator subscribers user r roles =
    gated (check_content_access t user creator subscribers roles) r

abbrev pub content_not_found : AppError
content_not_found = not_found_error "Content not found"

-- A draft is for admins and for team members with `viewPrivate`; "" is no user.
unfoldable pub require_draft_access :
    Tables → Option ℕ → String → Option String → Option (List String) → Result (Unit {0})
require_draft_access t (some published) creator user roles = ok tt
require_draft_access t none creator none roles = err content_not_found
require_draft_access t none creator (some u) roles =
    if str_eq u ""
    then err content_not_found
    else if includes (roles_or t u roles) "admin"
    then ok tt
    else if check_creator_permission t u creator view_private (some (roles_or t u roles))
    then ok tt
    else err content_not_found
