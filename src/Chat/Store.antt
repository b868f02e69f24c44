-- ===== src/Chat/Store.antt =====
-- The tables of apps/api/src/db/schema/chat.schema.ts, and what the chat takes from outside: fresh
-- ids, and JavaScript's lower case and regular expressions. A message and a filter's pattern are
-- lists of UTF-16 code units, as JavaScript counts them. Timestamps are milliseconds.
use snc_platform.Prelude.{ℕ, String, Bool, true, false, Option, List, leb, str_eq}
use snc_platform.Access.{UserRole, Member, Plan, UserSubscription}
use snc_platform.Playout.Store.{Channel}

pub record Room : Type 0 where
  pub id : String
  pub type : String
  pub channel_id : Option String
  pub name : String
  pub slow_mode_seconds : ℕ
  pub created_at : ℕ
  pub closed_at : Option ℕ

pub record Message : Type 0 where
  pub id : String
  pub room_id : String
  pub user_id : String
  pub user_name : String
  pub avatar_url : Option String
  pub badges : List String
  pub content : List ℕ
  pub created_at : ℕ

pub data ActionKind : Type 0 where
  timeout ban unban : ActionKind

pub record ModerationAction : Type 0 where
  pub id : String
  pub room_id : String
  pub target_user_id : String
  pub target_user_name : String
  pub moderator_user_id : String
  pub moderator_user_name : String
  pub action : ActionKind
  pub duration_seconds : Option ℕ
  pub reason : Option String
  pub created_at : ℕ
  pub expires_at : Option ℕ

pub record WordFilter : Type 0 where
  pub id : String
  pub room_id : String
  pub pattern : List ℕ
  pub is_regex : Bool
  pub created_at : ℕ

pub record Reaction : Type 0 where
  pub id : String
  pub message_id : String
  pub user_id : String
  pub room_id : String
  pub emoji : String

pub record User : Type 0 where
  pub id : String
  pub name : String

pub record ChatStore : Type 0 where
  pub rooms : List Room
  pub messages : List Message
  pub actions : List ModerationAction
  pub filters : List WordFilter
  pub reactions : List Reaction
  pub users : List User
  pub user_roles : List UserRole
  pub members : List Member
  pub channels : List Channel
  pub plans : List Plan
  pub subscriptions : List UserSubscription
  pub now : ℕ
  pub ids_used : ℕ

pub record ChatEnv : Type 0 where
  pub uuid : ℕ → String
  pub to_lower_case : List ℕ → List ℕ
  pub is_valid_regex : List ℕ → Bool
  pub regex_matches : List ℕ → List ℕ → Bool

abbrev pub room_has_id : String → Room → Bool
room_has_id x r = str_eq r.id x

abbrev pub user_has_id : String → User → Bool
user_has_id x u = str_eq u.id x

abbrev pub is_ban : ActionKind → Bool
is_ban ban = true
is_ban _ = false

abbrev pub is_unban : ActionKind → Bool
is_unban unban = true
is_unban _ = false

abbrev pub is_timeout : ActionKind → Bool
is_timeout timeout = true
is_timeout _ = false

-- ORDER BY created_at DESC
abbrev pub newest_action : ModerationAction → ModerationAction → Bool
newest_action a b = leb b.created_at a.created_at

abbrev pub newest_message : Message → Message → Bool
newest_message a b = leb b.created_at a.created_at
