-- ===== src/Chat/Reactions.antt =====
-- apps/api/src/services/chat-reactions.ts: emoji reactions to messages.
pub mod Laws
use snc_platform.Prelude.{
  ℕ, suc, String, Bool, true, false, Option, none, some, List, [], ◌∷◌, ◌++◌, ◌&&◌, ◌||◌, not,
  str_eq, if◌then◌else◌, length, map,
}
use snc_platform.Prelude.Table.{select, delete, first, any}
use snc_platform.Shared.{AppError, Result, ok, err, not_found_error, forbidden_error}
use snc_platform.Chat.Store.{Room, Message, Reaction, ChatStore, ChatEnv, room_has_id}
use snc_platform.Chat.Authority.{is_user_banned}

pub record ReactionRequest : Type 0 where
  pub message_id : String
  pub room_id : String
  pub user_id : String
  pub emoji : String

-- The unique index of the table: message, user and emoji.
abbrev pub same_reaction : ReactionRequest → Reaction → Bool
same_reaction q r =
    str_eq r.message_id q.message_id && (str_eq r.user_id q.user_id && str_eq r.emoji q.emoji)

abbrev pub with_emoji : ReactionRequest → Reaction → Bool
with_emoji q r = str_eq r.message_id q.message_id && str_eq r.emoji q.emoji

abbrev pub reaction_user : Reaction → String
reaction_user r = r.user_id

pub record ReactionState : Type 0 where
  pub count : ℕ
  pub user_ids : List String

-- The rows of the message with the emoji.
abbrev pub reaction_state : ReactionRequest → ChatStore → ReactionState
reaction_state q s = record {
  count = length (select (with_emoji q) s.reactions);
  user_ids = map reaction_user (select (with_emoji q) s.reactions);
}

abbrev pub new_reaction : ChatEnv → ReactionRequest → ChatStore → Reaction
new_reaction env q s = record {
  id = env.uuid s.ids_used;
  message_id = q.message_id;
  user_id = q.user_id;
  room_id = q.room_id;
  emoji = q.emoji;
}

-- INSERT … ON CONFLICT DO NOTHING
unfoldable pub insert_reaction : ChatEnv → ReactionRequest → ChatStore → ChatStore
insert_reaction env q s =
    if any (same_reaction q) s.reactions then record s { ids_used = suc s.ids_used } else record s {
      reactions = s.reactions ++ new_reaction env q s ∷ [];
      ids_used = suc s.ids_used;
    }

unfoldable pub react : ChatEnv → ReactionRequest → ChatStore → ChatStore × Result ReactionState
react env q s = (insert_reaction env q s, ok (reaction_state q (insert_reaction env q s)))

abbrev pub message_in : ReactionRequest → Message → Bool
message_in q m = str_eq m.id q.message_id && str_eq m.room_id q.room_id

unfoldable pub react_to :
    ChatEnv → ReactionRequest → Option Message → ChatStore → ChatStore × Result ReactionState
react_to env q none s = (s, err (not_found_error "Message not found"))
react_to env q (some m) s =
    if is_user_banned q.user_id q.room_id s
    then (s, err (forbidden_error "You are banned from this room"))
    else react env q s

unfoldable pub react_open :
    ChatEnv → ReactionRequest → Option ℕ → ChatStore → ChatStore × Result ReactionState
react_open env q (some closed) s = (s, err (forbidden_error "Chat room is closed"))
react_open env q none s = react_to env q (first (message_in q) s.messages) s

unfoldable pub react_in :
    ChatEnv → ReactionRequest → Option Room → ChatStore → ChatStore × Result ReactionState
react_in env q none s = (s, err (not_found_error "Chat room not found"))
react_in env q (some room) s = react_open env q room.closed_at s

unfoldable pub add_reaction :
    ChatEnv → ReactionRequest → ChatStore → ChatStore × Result ReactionState
add_reaction env q s = react_in env q (first (room_has_id q.room_id) s.rooms) s

unfoldable pub unreact : ReactionRequest → ChatStore → ChatStore
unreact q s = record s { reactions = delete (same_reaction q) s.reactions }

unfoldable pub unreact_in :
    ReactionRequest → Option Room → ChatStore → ChatStore × Result ReactionState
unreact_in q none s = (s, err (not_found_error "Chat room not found"))
unreact_in q (some room) s = (unreact q s, ok (reaction_state q (unreact q s)))

-- A closed room lets its users take reactions back.
unfoldable pub remove_reaction : ReactionRequest → ChatStore → ChatStore × Result ReactionState
remove_reaction q s = unreact_in q (first (room_has_id q.room_id) s.rooms) s
