-- ===== src/Chat/Messages.antt =====
-- apps/api/src/services/chat.ts: rooms, messages and their history.
pub mod Sending
pub mod Tags
pub mod Rooms
use snc_platform.Prelude.{
  ℕ, suc, ◌+◌, ◌-◌, ◌*◌, ◌/◌, String, Bool, true, false, Option, none, some, List, [], ◌∷◌, ◌++◌,
  ◌&&◌, ◌||◌, not, str_eq, leb, ltb, ◌==◌, if◌then◌else◌, length, take,
}
use snc_platform.Prelude.Table.{select, update, first, any, order_by}
use snc_platform.Shared.{
  AppError, Result, ok, err, not_found_error, forbidden_error, rate_limit_error,
}
use snc_platform.Access.{Plan, UserSubscription, joined_plans}
use snc_platform.Playout.Store.{Channel, channel_has_id, truthy, column_eq}
use snc_platform.Chat.Store.{Room, Message, ChatStore, ChatEnv, room_has_id, newest_message}
use snc_platform.Chat.Authority.{can_moderate_room, is_user_banned, is_user_timed_out, creator_of}
use snc_platform.Chat.Filters.{is_message_filtered}

abbrev pub max_message_length : ℕ
max_message_length = 500

abbrev is_active_of : String → UserSubscription → Bool
is_active_of u s = str_eq s.user_id u && str_eq s.status "active"

abbrev active_plans : String → ChatStore → List Plan
active_plans u s = joined_plans s.plans (select (is_active_of u) s.subscriptions)

abbrev is_platform_plan : Plan → Bool
is_platform_plan p = str_eq p.type "platform"

abbrev is_creator_plan : String → Plan → Bool
is_creator_plan creator p = str_eq p.type "creator" && column_eq p.creator_id creator

abbrev badge_if : Bool → String → List String
badge_if true b = b ∷ []
badge_if false b = []

abbrev creator_badge : Option String → List Plan → List String
creator_badge none plans = []
creator_badge (some creator) plans = badge_if (any (is_creator_plan creator) plans) "creator"

abbrev channel_creator : Option String → ChatStore → Option String
channel_creator none s = none
channel_creator (some ch) s = creator_of (first (channel_has_id ch) s.channels)

unfoldable pub resolve_user_badges : String → Room → ChatStore → List String
resolve_user_badges u room s =
    badge_if (any is_platform_plan (active_plans u s)) "platform"
    ++ creator_badge (channel_creator (truthy room.channel_id) s) (active_plans u s)

abbrev pub message_by : String → String → Message → Bool
message_by room_id u m = str_eq m.room_id room_id && str_eq m.user_id u

-- `elapsed < slowModeSeconds` in milliseconds.
unfoldable pub must_wait : ℕ → ℕ → Option Message → Bool
must_wait now seconds none = false
must_wait now seconds (some m) = ltb now (m.created_at + seconds * 1000)

abbrev pub slow_mode_error : AppError
slow_mode_error = rate_limit_error "Slow mode: please wait before sending again"

abbrev pub last_message : String → String → ChatStore → Option Message
last_message room_id u s =
    first (λ _. true) (order_by newest_message (select (message_by room_id u) s.messages))

unfoldable pub check_slow_mode : String → String → ℕ → ChatStore → Result (Unit {0})
check_slow_mode room_id u seconds s =
    if leb seconds 0
    then ok tt
    else if must_wait s.now seconds (last_message room_id u s)
    then err slow_mode_error
    else ok tt

-- Is there a `>` in the text?
abbrev pub has_gt : List ℕ → Bool
has_gt [] = false
has_gt (c ∷ cs) = c == b'>' || has_gt cs

-- `replace(/<[^>]*>/g, "")`: a `<` starts a match if a `>` follows it somewhere, and the match ends
-- at the first `>`. The flag tells whether the scan is inside a match.
unfoldable pub strip : Bool → List ℕ → List ℕ
strip inside [] = []
strip true (c ∷ cs) =
    let out = strip false cs in let on = strip true cs in if c == b'>' then out else on
strip false (c ∷ cs) =
    let on = strip true cs in
    let out = strip false cs in if c == b'<' && has_gt cs then on else c ∷ out

unfoldable pub strip_tags : List ℕ → List ℕ
strip_tags text = strip false text

pub record Draft : Type 0 where
  pub room_id : String
  pub user_id : String
  pub user_name : String
  pub avatar_url : Option String
  pub content : List ℕ

abbrev pub new_message : ChatEnv → Draft → Room → ChatStore → Message
new_message env d room s = record {
  id = env.uuid s.ids_used;
  room_id = d.room_id;
  user_id = d.user_id;
  user_name = d.user_name;
  avatar_url = d.avatar_url;
  badges = resolve_user_badges d.user_id room s;
  content = strip_tags d.content;
  created_at = s.now;
}

abbrev pub insert_message : ChatEnv → Draft → Room → ChatStore → ChatStore × Result Message
insert_message env d room s = (
  record s { messages = s.messages ++ new_message env d room s ∷ []; ids_used = suc s.ids_used },
  ok (new_message env d room s),
)

abbrev pub message_filtered : AppError
message_filtered = record {
  code = "MESSAGE_FILTERED";
  message = "Message blocked by word filter";
  status_code = 400;
}

abbrev pub message_too_long : AppError
message_too_long = record {
  code = "MESSAGE_TOO_LONG";
  message = "Max 500 characters";
  status_code = 400;
}

unfoldable pub create_unfiltered :
    ChatEnv → Draft → Room → Result (Unit {0}) → ChatStore → ChatStore × Result Message
create_unfiltered env d room (err e) s = (s, err e)
create_unfiltered env d room (ok _) s =
    if is_message_filtered env d.room_id d.content s
    then (s, err message_filtered)
    else insert_message env d room s

-- Moderators are exempt from slow mode and from the word filters.
unfoldable pub create_by :
    ChatEnv → Draft → Room → Result (Unit {0}) → ChatStore → ChatStore × Result Message
create_by env d room (ok _) s = insert_message env d room s
create_by env d room (err _) s =
    create_unfiltered env d room (check_slow_mode d.room_id d.user_id room.slow_mode_seconds s) s

unfoldable pub create_unless_timed_out :
    ChatEnv → Draft → Room → Option ℕ → ChatStore → ChatStore × Result Message
create_unless_timed_out env d room (some until) s = (s, err (forbidden_error "You are timed out"))
create_unless_timed_out env d room none s =
    create_by env d room (can_moderate_room d.user_id d.room_id s) s

unfoldable pub create_open :
    ChatEnv → Draft → Room → Option ℕ → ChatStore → ChatStore × Result Message
create_open env d room (some closed) s = (s, err (forbidden_error "Chat room is closed"))
create_open env d room none s =
    if is_user_banned d.user_id d.room_id s
    then (s, err (forbidden_error "You are banned from this room"))
    else create_unless_timed_out env d room (is_user_timed_out d.user_id d.room_id s) s

unfoldable pub create_in : ChatEnv → Draft → Option Room → ChatStore → ChatStore × Result Message
create_in env d none s = (s, err (not_found_error "Chat room not found"))
create_in env d (some room) s = create_open env d room room.closed_at s

unfoldable pub create_message : ChatEnv → Draft → ChatStore → ChatStore × Result Message
create_message env d s =
    if ltb max_message_length (length d.content)
    then (s, err message_too_long)
    else create_in env d (first (room_has_id d.room_id) s.rooms) s

abbrev pub is_null {ℓ} : {A : Type ℓ} → Option A → Bool
is_null none = true
is_null (some a) = false

abbrev pub open_room_of : String → Room → Bool
open_room_of ch r = column_eq r.channel_id ch && is_null r.closed_at

abbrev pub new_room : ChatEnv → String → Option String → String → ChatStore → Room
new_room env type ch name s = record {
  id = env.uuid s.ids_used;
  type = type;
  channel_id = ch;
  name = name;
  slow_mode_seconds = 0;
  created_at = s.now;
  closed_at = none;
}

abbrev pub insert_room : Room → ChatStore → ChatStore × Room
insert_room r s = (record s { rooms = s.rooms ++ r ∷ []; ids_used = suc s.ids_used }, r)

unfoldable pub create_channel_room : ChatEnv → String → String → ChatStore → ChatStore × Room
create_channel_room env ch name s = insert_room (new_room env "channel" (some ch) name s) s

unfoldable pub ensure_channel_room : ChatEnv → String → String → ChatStore → ChatStore × Room
unfolding create_channel_room
ensure_channel_room env ch name s = elim (first (open_room_of ch) s.rooms) [
  | some r ↦ (s, r)
  | none ↦ create_channel_room env ch name s
]

abbrev is_platform_room : Room → Bool
is_platform_room r = str_eq r.type "platform"

unfoldable pub ensure_platform_room : ChatEnv → ChatStore → ChatStore × Room
ensure_platform_room env s = elim (first is_platform_room s.rooms) [
  | some r ↦ (s, r)
  | none ↦ insert_room (new_room env "platform" none "Community" s) s
]

abbrev pub with_closed_at : ℕ → Room → Room
with_closed_at now r = record r { closed_at = some now }

unfoldable pub close_channel_room : String → ChatStore → ChatStore
close_channel_room ch s = record s {
  rooms = update (open_room_of ch) (with_closed_at s.now) s.rooms;
}
