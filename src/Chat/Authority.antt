-- ===== src/Chat/Authority.antt =====
-- apps/api/src/services/chat-moderation-auth.ts: who moderates a room, and who is banned or timed
-- out in it.
use snc_platform.Prelude.{
  ℕ, String, Bool, true, false, Option, none, some, ◌&&◌, ◌||◌, str_eq, ltb, if◌then◌else◌,
}
use snc_platform.Prelude.Table.{select, first, any, order_by}
use snc_platform.Shared.{AppError, Result, ok, err, forbidden_error}
use snc_platform.Access.{MemberRole, owner, UserRole, Member}
use snc_platform.Playout.Store.{Channel, channel_has_id, truthy}
use snc_platform.Chat.Store.{
  Room, ActionKind, ModerationAction, ChatStore, room_has_id, is_ban, is_unban, is_timeout,
  newest_action,
}

abbrev pub is_admin_role : String → UserRole → Bool
is_admin_role u r = str_eq r.user_id u && str_eq r.role "admin"

abbrev pub is_owner : MemberRole → Bool
is_owner owner = true
is_owner _ = false

abbrev pub is_owner_of : String → String → Member → Bool
is_owner_of u creator m = str_eq m.user_id u && (str_eq m.creator_id creator && is_owner m.role)

abbrev pub creator_of : Option Channel → Option String
creator_of none = none
creator_of (some c) = truthy c.creator_id

-- The creator behind a channel room; a platform room has none.
unfoldable pub room_creator : Room → ChatStore → Option String
room_creator room s =
    if str_eq room.type "channel"
    then elim (truthy room.channel_id) [
      | none ↦ none
      | some ch ↦ creator_of (first (channel_has_id ch) s.channels)
    ]
    else none

unfoldable pub owns_creator : String → Option String → ChatStore → Bool
owns_creator u none s = false
owns_creator u (some creator) s = any (is_owner_of u creator) s.members

abbrev pub no_authority : AppError
no_authority = forbidden_error "You do not have moderation authority for this room"

unfoldable pub moderates : String → Room → ChatStore → Bool
moderates u room s = any (is_admin_role u) s.user_roles || owns_creator u (room_creator room s) s

unfoldable pub can_moderate : String → Option Room → ChatStore → Result (Unit {0})
can_moderate u none s = err (forbidden_error "Room not found")
can_moderate u (some room) s = if moderates u room s then ok tt else err no_authority

unfoldable pub can_moderate_room : String → String → ChatStore → Result (Unit {0})
can_moderate_room u room_id s = can_moderate u (first (room_has_id room_id) s.rooms) s

abbrev pub targets : String → String → ModerationAction → Bool
targets u room_id a = str_eq a.target_user_id u && str_eq a.room_id room_id

abbrev pub is_ban_or_unban : ModerationAction → Bool
is_ban_or_unban a = is_ban a.action || is_unban a.action

abbrev pub ended_by_ban : Option ModerationAction → Bool
ended_by_ban none = false
ended_by_ban (some a) = is_ban a.action

-- The newest ban or unban of the user in the room is a ban.
unfoldable pub is_user_banned : String → String → ChatStore → Bool
is_user_banned u room_id s =
    ended_by_ban
      (first is_ban_or_unban (order_by newest_action (select (targets u room_id) s.actions)))

abbrev pub timeouts_of : String → String → ModerationAction → Bool
timeouts_of u room_id a =
    str_eq a.target_user_id u && (str_eq a.room_id room_id && is_timeout a.action)

abbrev pub expiry : Option ModerationAction → Option ℕ
expiry none = none
expiry (some a) = a.expires_at

abbrev pub still_running : ℕ → Option ℕ → Option ℕ
still_running now none = none
still_running now (some e) = if ltb now e then some e else none

-- When the user's timeout ends: that of the newest timeout, if it is still to come.
unfoldable pub is_user_timed_out : String → String → ChatStore → Option ℕ
is_user_timed_out u room_id s =
    still_running s.now (
      expiry
        (first (λ _. true) (order_by newest_action (select (timeouts_of u room_id) s.actions))))

pub record RoomStateData : Type 0 where
  pub slow_mode_seconds : ℕ
  pub is_banned : Bool
  pub ban_moderator_user_name : Option String
  pub is_timed_out : Bool
  pub timed_out_until : Option ℕ
  pub timeout_moderator_user_name : Option String

abbrev pub has_kind : (ActionKind → Bool) → ModerationAction → Bool
has_kind p a = p a.action

abbrev moderator_name : Option ModerationAction → Option String
moderator_name none = none
moderator_name (some a) = some a.moderator_user_name

-- The moderator of the newest action of a kind.
unfoldable pub newest_moderator : (ActionKind → Bool) → String → String → ChatStore → Option String
newest_moderator kind u room_id s =
    moderator_name
      (first (has_kind kind) (order_by newest_action (select (targets u room_id) s.actions)))

abbrev pub is_set : Option ℕ → Bool
is_set none = false
is_set (some e) = true

unfoldable pub user_room_state : String → Room → ChatStore → RoomStateData
user_room_state u room s =
    let banned = is_user_banned u room.id s in
    let until = is_user_timed_out u room.id s in
    record {
      slow_mode_seconds = room.slow_mode_seconds;
      is_banned = banned;
      ban_moderator_user_name = if banned then newest_moderator is_ban u room.id s else none;
      is_timed_out = is_set until;
      timed_out_until = until;
      timeout_moderator_user_name =
          if is_set until then newest_moderator is_timeout u room.id s else none;
    }

unfoldable pub room_state_in : Option String → Option Room → ChatStore → Option RoomStateData
room_state_in user none s = none
room_state_in none (some room) s = some (record {
  slow_mode_seconds = room.slow_mode_seconds;
  is_banned = false;
  ban_moderator_user_name = none;
  is_timed_out = false;
  timed_out_until = none;
  timeout_moderator_user_name = none;
})
room_state_in (some u) (some room) s = some (user_room_state u room s)

-- `!userId` also holds of "".
unfoldable pub get_room_state : Option String → String → ChatStore → Option RoomStateData
get_room_state user room_id s = room_state_in (truthy user) (first (room_has_id room_id) s.rooms) s
