-- ===== src/Chat/Moderation.antt =====
-- apps/api/src/services/chat-moderation.ts: timeouts, bans, slow mode and the audit of them.
pub mod Bans
pub mod Timeouts
pub mod Power
use snc_platform.Prelude.{
  ℕ, suc, ◌+◌, ◌*◌, String, Bool, true, false, Option, none, some, List, [], ◌∷◌, ◌++◌, ◌&&◌, ◌||◌,
  str_eq, ltb, if◌then◌else◌, length, take, not,
}
use snc_platform.Prelude.Table.{select, update, first, any, order_by}
use snc_platform.Shared.{AppError, Result, ok, err, forbidden_error, not_found_error}
use snc_platform.Chat.Store.{
  Room, ActionKind, timeout, ban, unban, ModerationAction, ChatStore, ChatEnv, User, room_has_id,
  user_has_id, is_ban, is_unban, is_timeout, newest_action,
}
use snc_platform.Chat.Authority.{can_moderate_room, is_user_banned, targets}

-- What a moderator asks for; an unban takes no reason.
pub record Request : Type 0 where
  pub room_id : String
  pub target_user_id : String
  pub moderator_user_id : String
  pub moderator_user_name : String
  pub reason : Option String

abbrev pub new_action :
    ChatEnv
    → Request
    → String
    → ActionKind
    → Option ℕ
    → Option String
    → Option ℕ
    → ChatStore
    → ModerationAction
new_action env q name kind duration reason expires s = record {
  id = env.uuid s.ids_used;
  room_id = q.room_id;
  target_user_id = q.target_user_id;
  target_user_name = name;
  moderator_user_id = q.moderator_user_id;
  moderator_user_name = q.moderator_user_name;
  action = kind;
  duration_seconds = duration;
  reason = reason;
  created_at = s.now;
  expires_at = expires;
}

-- INSERT into the audit table.
abbrev pub record_action : ModerationAction → ChatStore → ChatStore × Result ModerationAction
record_action a s = (record s { actions = s.actions ++ a ∷ []; ids_used = suc s.ids_used }, ok a)

-- Resolve the target's name, and record the action.
unfoldable pub act_on :
    ChatEnv
    → Request
    → ActionKind
    → Option ℕ
    → Option String
    → Option ℕ
    → Option User
    → ChatStore
    → ChatStore × Result ModerationAction
act_on env q kind duration reason expires none s =
    (s, err (not_found_error "Target user not found"))
act_on env q kind duration reason expires (some u) s =
    record_action (new_action env q u.name kind duration reason expires s) s

abbrev pub target_of : Request → ChatStore → Option User
target_of q s = first (user_has_id q.target_user_id) s.users

unfoldable pub timeout_allowed :
    ChatEnv → Request → ℕ → Result (Unit {0}) → ChatStore → ChatStore × Result ModerationAction
timeout_allowed env q seconds (err e) s = (s, err e)
timeout_allowed env q seconds (ok _) s =
    act_on env q timeout (some seconds) q.reason (some (s.now + seconds * 1000)) (target_of q s) s

unfoldable pub timeout_user :
    ChatEnv → Request → ℕ → ChatStore → ChatStore × Result ModerationAction
timeout_user env q seconds s =
    if str_eq q.target_user_id q.moderator_user_id
    then (s, err (forbidden_error "You cannot timeout yourself"))
    else timeout_allowed env q seconds (can_moderate_room q.moderator_user_id q.room_id s) s

abbrev pub bans_of : Request → ModerationAction → Bool
bans_of q a = targets q.target_user_id q.room_id a && is_ban a.action

abbrev pub existing_ban : Request → ChatStore → Option ModerationAction
existing_ban q s =
    if is_user_banned q.target_user_id q.room_id s
    then first (λ _. true) (order_by newest_action (select (bans_of q) s.actions))
    else none

unfoldable pub ban_unless :
    ChatEnv → Request → Option ModerationAction → ChatStore → ChatStore × Result ModerationAction
ban_unless env q (some existing) s = (s, ok existing)
ban_unless env q none s = act_on env q ban none q.reason none (target_of q s) s

unfoldable pub ban_allowed :
    ChatEnv → Request → Result (Unit {0}) → ChatStore → ChatStore × Result ModerationAction
ban_allowed env q (err e) s = (s, err e)
ban_allowed env q (ok _) s = ban_unless env q (existing_ban q s) s

-- A user who is banned already keeps the ban there is.
unfoldable pub ban_user : ChatEnv → Request → ChatStore → ChatStore × Result ModerationAction
ban_user env q s =
    if str_eq q.target_user_id q.moderator_user_id
    then (s, err (forbidden_error "You cannot ban yourself"))
    else ban_allowed env q (can_moderate_room q.moderator_user_id q.room_id s) s

unfoldable pub unban_allowed :
    ChatEnv → Request → Result (Unit {0}) → ChatStore → ChatStore × Result ModerationAction
unban_allowed env q (err e) s = (s, err e)
unban_allowed env q (ok _) s =
    if is_user_banned q.target_user_id q.room_id s
    then act_on env q unban none none none (target_of q s) s
    else (s, err (not_found_error "User is not currently banned"))

unfoldable pub unban_user : ChatEnv → Request → ChatStore → ChatStore × Result ModerationAction
unban_user env q s = unban_allowed env q (can_moderate_room q.moderator_user_id q.room_id s) s

abbrev pub with_slow_mode : ℕ → Room → Room
with_slow_mode seconds r = record r { slow_mode_seconds = seconds }

unfoldable pub slow_mode_allowed : String → ℕ → Result (Unit {0}) → ChatStore → ChatStore × Result ℕ
slow_mode_allowed room_id seconds (err e) s = (s, err e)
slow_mode_allowed room_id seconds (ok _) s =
    (record s { rooms = update (room_has_id room_id) (with_slow_mode seconds) s.rooms }, ok seconds)

unfoldable pub set_slow_mode : String → String → ℕ → ChatStore → ChatStore × Result ℕ
set_slow_mode room_id moderator seconds s =
    slow_mode_allowed room_id seconds (can_moderate_room moderator room_id s) s

abbrev pub in_history : String → Option ℕ → ModerationAction → Bool
in_history room_id none a = str_eq a.room_id room_id
in_history room_id (some before) a = str_eq a.room_id room_id && ltb a.created_at before

abbrev pub history_rows : String → Option ℕ → ℕ → ChatStore → List ModerationAction
history_rows room_id before limit s =
    take (limit + 1) (order_by newest_action (select (in_history room_id before) s.actions))

-- One row more than the page is read, to learn whether there are more.
unfoldable pub get_moderation_history :
    String → Option ℕ → ℕ → ChatStore → List ModerationAction × Bool
get_moderation_history room_id before limit s = (
  take limit (history_rows room_id before limit s),
  ltb limit (length (history_rows room_id before limit s)),
)

abbrev pub expires_after : ℕ → Option ℕ → Bool
expires_after now none = false
expires_after now (some e) = ltb now e

abbrev pub is_active_timeout : String → ℕ → ModerationAction → Bool
is_active_timeout room_id now a =
    str_eq a.room_id room_id && (is_timeout a.action && expires_after now a.expires_at)

abbrev pub room_bans : String → ModerationAction → Bool
room_bans room_id a = str_eq a.room_id room_id && is_ban a.action

abbrev pub later_unban : String → ModerationAction → ModerationAction → Bool
later_unban room_id b a =
    targets b.target_user_id room_id a && (is_unban a.action && ltb b.created_at a.created_at)

abbrev pub checked_user : List String → String → Bool
checked_user [] u = false
checked_user (x ∷ xs) u = str_eq x u || checked_user xs u

-- The loop over the bans, newest first: the first of each user, if no unban follows it.
unfoldable pub active_bans :
    String → List ModerationAction → List String → List ModerationAction → List ModerationAction
active_bans room_id actions checked [] = []
active_bans room_id actions checked (b ∷ bs) =
    let skipped = active_bans room_id actions checked bs in
    let rest = active_bans room_id actions (b.target_user_id ∷ checked) bs in
    if checked_user checked b.target_user_id
    then skipped
    else if any (later_unban room_id b) actions
    then rest
    else b ∷ rest

unfoldable pub get_active_sanctions : String → ChatStore → List ModerationAction
get_active_sanctions room_id s =
    active_bans room_id s.actions [] (order_by newest_action (select (room_bans room_id) s.actions))
    ++ select (is_active_timeout room_id s.now) s.actions
