-- ===== src/Tests/Chat.antt =====
-- A room that an admin moderates.
use snc_platform.Prelude.{
  length, ◌≤◌, ℕ, ◌+◌, ◌*◌, String, ◌≡◌, refl, true, false, none, some, [], ◌∷◌, arith,
}
use snc_platform.Prelude.Table.{select, first, any, order_by, count_where}
use snc_platform.Shared.{ok}
use snc_platform.Chat.Store.{
  Message, timeout, ModerationAction, ActionKind, ban, unban, ChatStore, ChatEnv,
}
use snc_platform.Chat.Authority.{
  can_moderate_room, can_moderate, moderates, is_user_banned, is_user_timed_out,
}
use snc_platform.Chat.Moderation.{
  Request, ban_user, ban_allowed, ban_unless, act_on, unban_user, unban_allowed, timeout_user,
  timeout_allowed, new_action,
}
use snc_platform.Chat.Moderation.Bans.{ban_user-bans, unban_user-unbans}
use snc_platform.Chat.Moderation.Timeouts.{timeout_user-times_out}
use snc_platform.Chat.Moderation.Power.{IsModerated, moderation-IsModerated}
use snc_platform.Chat.Filters.{
  add_word_filter, remove_word_filter, is_message_filtered, get_word_filters, filter_blocks,
}
use snc_platform.Chat.Filters.Bound.{IsTidy, word_filters-IsTidy}
use snc_platform.Chat.Reactions.{ReactionRequest}
use snc_platform.Chat.Messages.{Draft, create_message, strip_tags, strip}
use snc_platform.Chat.Messages.Sending.{Sends, create_message-Sends}
use snc_platform.Chat.Messages.Tags.{has_tag, strip_tags-has_tag}
use snc_platform.Tests.Data.{marks}

abbrev chat_env : ChatEnv
chat_env = record {
  uuid = marks;
  to_lower_case = λ t. t;
  is_valid_regex = λ t. true;
  regex_matches = λ p t. false;
}

abbrev past_action : String → ActionKind → ℕ → ModerationAction
past_action user kind at = record {
  id = user;
  room_id = "lobby";
  target_user_id = user;
  target_user_name = user;
  moderator_user_id = "root";
  moderator_user_name = "Root";
  action = kind;
  duration_seconds = none;
  reason = none;
  created_at = at;
  expires_at = none;
}

-- `eve` is banned already.
abbrev room_store : ChatStore
room_store = record {
  rooms =
      record {
        id = "lobby";
        type = "platform";
        channel_id = none;
        name = "Lobby";
        slow_mode_seconds = 0;
        created_at = 1;
        closed_at = none;
      }
      ∷ [];
  messages = [];
  actions = past_action "eve" ban 500 ∷ [];
  filters = [];
  reactions = [];
  users = record { id = "bob"; name = "Bob" } ∷ record { id = "eve"; name = "Eve" } ∷ [];
  user_roles = record { user_id = "root"; role = "admin" } ∷ [];
  members = [];
  channels = [];
  plans = [];
  subscriptions = [];
  now = 1000;
  ids_used = 0;
}

abbrev request : String → Request
request target = record {
  room_id = "lobby";
  target_user_id = target;
  moderator_user_id = "root";
  moderator_user_name = "Root";
  reason = none;
}

abbrev new_ban : ModerationAction
new_ban = new_action chat_env (request "bob") "Bob" ban none none none room_store

ban_answered : (ban_user chat_env (request "bob") room_store).1 ≡ ok new_ban
unfolding ban_user ban_allowed can_moderate_room can_moderate first moderates any ban_unless
    is_user_banned order_by select act_on
ban_answered = refl

ban_user-bans_example :
    is_user_banned "bob" "lobby" (ban_user chat_env (request "bob") room_store).0 ≡ true
ban_user-bans_example =
    ban_user-bans chat_env (request "bob") room_store (omega arith, tt) new_ban ban_answered

abbrev new_unban : ModerationAction
new_unban = new_action chat_env (request "eve") "Eve" unban none none none room_store

unban_answered : (unban_user chat_env (request "eve") room_store).1 ≡ ok new_unban
unfolding unban_user unban_allowed can_moderate_room can_moderate first moderates any is_user_banned
    order_by select act_on
unban_answered = refl

unban_user-unbans_example :
    is_user_banned "eve" "lobby" (unban_user chat_env (request "eve") room_store).0 ≡ false
unban_user-unbans_example =
    unban_user-unbans chat_env (request "eve") room_store (omega arith, tt) new_unban unban_answered

abbrev new_timeout : ModerationAction
new_timeout =
    new_action chat_env (request "bob") "Bob" timeout (some 60) none (some 61000) room_store

timeout_answered : (timeout_user chat_env (request "bob") 60 room_store).1 ≡ ok new_timeout
unfolding timeout_user timeout_allowed can_moderate_room can_moderate first moderates any act_on
timeout_answered = refl

timeout_user-times_out_example :
    is_user_timed_out "bob" "lobby" (timeout_user chat_env (request "bob") 60 room_store).0
    ≡ some (room_store.now + 60 * 1000)
timeout_user-times_out_example =
    timeout_user-times_out chat_env (request "bob") room_store (omega arith, tt) 60 (omega arith)
      new_timeout timeout_answered

moderation-IsModerated_example :
    IsModerated (request "bob") room_store (ban_user chat_env (request "bob") room_store)
    × IsModerated (request "bob") room_store (unban_user chat_env (request "bob") room_store)
    × IsModerated (request "bob") room_store (timeout_user chat_env (request "bob") 60 room_store)
moderation-IsModerated_example = moderation-IsModerated chat_env (request "bob") room_store 60

no_filters : IsTidy room_store.filters
unfolding count_where
no_filters = (λ room. omega arith, tt)

word_filters-IsTidy_example :
    IsTidy (add_word_filter chat_env "lobby" "root" (b'a' ∷ []) false room_store).0.filters
    × IsTidy (remove_word_filter "f1" "root" room_store).0.filters
word_filters-IsTidy_example =
    word_filters-IsTidy chat_env "lobby" "root" "f1" (b'a' ∷ []) false room_store no_filters

abbrev message : Message
message = record {
  id = "m1";
  room_id = "lobby";
  user_id = "bob";
  user_name = "Bob";
  avatar_url = none;
  badges = [];
  content = b'h' ∷ b'i' ∷ [];
  created_at = 900;
}

abbrev talking_store : ChatStore
talking_store = record room_store { messages = message ∷ [] }

abbrev reaction : ReactionRequest
reaction = record { message_id = "m1"; room_id = "lobby"; user_id = "bob"; emoji = "+" }

abbrev draft : Draft
draft = record {
  room_id = "lobby";
  user_id = "bob";
  user_name = "Bob";
  avatar_url = none;
  content = b'<' ∷ b'b' ∷ b'>' ∷ b'h' ∷ [];
}

create_message-Sends_example :
    Sends chat_env draft talking_store (create_message chat_env draft talking_store)
create_message-Sends_example = create_message-Sends chat_env draft talking_store

-- The tag goes, and a lone `<` stays.
stripped : strip_tags (b'<' ∷ b'b' ∷ b'>' ∷ b'h' ∷ b'<' ∷ []) ≡ b'h' ∷ b'<' ∷ []
unfolding strip_tags strip
stripped = refl

-- A filter on `bad` lets `b<i>ad` pass, which is stored as `bad`.
abbrev filtered_store : ChatStore
filtered_store = record room_store {
  filters =
      record {
        id = "f1";
        room_id = "lobby";
        pattern = b'b' ∷ b'a' ∷ b'd' ∷ [];
        is_regex = false;
        created_at = 1;
      }
      ∷ [];
}

split_word-passes :
    is_message_filtered chat_env "lobby"
      (b'b' ∷ b'<' ∷ b'i' ∷ b'>' ∷ b'a' ∷ b'd' ∷ [])
      filtered_store
    ≡ false
unfolding is_message_filtered any get_word_filters select filter_blocks
split_word-passes = refl

split_word-joined :
    strip_tags (b'b' ∷ b'<' ∷ b'i' ∷ b'>' ∷ b'a' ∷ b'd' ∷ []) ≡ b'b' ∷ b'a' ∷ b'd' ∷ []
unfolding strip_tags strip
split_word-joined = refl

no_tag : has_tag (b'<' ∷ b'h' ∷ []) ≡ false
unfolding has_tag
no_tag = refl

strip_tags-has_tag_example :
    (has_tag (strip_tags draft.content) ≡ false)
    × (length (strip_tags draft.content) ≤ length draft.content)
    × (strip_tags (strip_tags draft.content) ≡ strip_tags draft.content)
    × (strip_tags (b'<' ∷ b'h' ∷ []) ≡ b'<' ∷ b'h' ∷ [])
strip_tags-has_tag_example = strip_tags-has_tag draft.content (b'<' ∷ b'h' ∷ []) no_tag
