-- ===== src/Tests/Access.antt =====
-- The access gates: a subscriber of the band, its editor, and a stranger.
use snc_platform.Prelude.{String, ◌≡◌, ◌≢◌, ◌↔◌, ◌⊎◌, none, some, [], ◌∷◌, refl}
use snc_platform.Prelude.Table.{select, first}
use snc_platform.Shared.{ok, err}
use snc_platform.Access.{
  Tables, public, subscribers, editor, allowed, ContentResponse, check_content_access,
  apply_content_gate, require_draft_access, content_not_found, has_content_access,
  build_content_access_context, get_user_roles, any_platform, subscribed_plans, joined_plans,
  is_effective, plan_creators,
}
use snc_platform.Access.Entitled.{IsEntitled, HasRole}
use snc_platform.Access.Gate.{check_content_access_iff, apply_content_gate-cases}
use snc_platform.Access.Drafts.{IsOnTeam, require_draft_access_iff}

abbrev tables : Tables
tables = record {
  user_roles = record { user_id = "root"; role = "admin" } ∷ [];
  members = record { user_id = "ed"; creator_id = "band"; role = editor } ∷ [];
  plans = record { id = "plan"; type = "creator"; creator_id = some "band" } ∷ [];
  subscriptions =
      record {
        user_id = "ana";
        plan_id = "plan";
        status = "canceled";
        current_period_end = some 2000;
      }
      ∷ [];
  now = 1000;
}

check_content_access_iff_example :
    (check_content_access tables (some "ana") "band" subscribers none ≡ allowed)
    ↔ IsEntitled tables "ana" "band"
check_content_access_iff_example = check_content_access_iff tables "ana" "band"

abbrev response : ContentResponse
response = record { id = "c1"; media_url = some "video.mp4"; body = some "text" }

apply_content_gate-cases_example :
    (apply_content_gate tables "band" public (some "bob") response none ≡ response)
    × (apply_content_gate tables "band" subscribers none response none
        ≡ record response { media_url = none; body = none })
    × ((IsEntitled tables "bob" "band"
          × (apply_content_gate tables "band" subscribers (some "bob") response none ≡ response))
        ⊎ ((¬ IsEntitled tables "bob" "band")
            × (apply_content_gate tables "band" subscribers (some "bob") response none
                ≡ record response { media_url = none; body = none })))
apply_content_gate-cases_example =
    apply_content_gate-cases tables "band" "bob" (some "bob") response

abbrev member : String
member = "ed"

require_draft_access_iff_example :
    ((require_draft_access tables none "band" (some member) none ≡ ok tt)
      ↔ ((member ≢ "") × (HasRole tables member "admin" ⊎ IsOnTeam tables member "band")))
    × (require_draft_access tables none "band" none none ≡ err content_not_found)
    × (require_draft_access tables (some 5) "band" none none ≡ ok tt)
require_draft_access_iff_example = require_draft_access_iff tables member "band" none 5

-- The canceled subscription still runs.
subscriber_let_in : check_content_access tables (some "ana") "band" subscribers none ≡ allowed
unfolding check_content_access has_content_access build_content_access_context get_user_roles select
    any_platform subscribed_plans joined_plans is_effective first plan_creators
subscriber_let_in = refl
