-- ===== src/Chat/Moderation/Bans.antt =====
-- Bans against the audit table: the last word on a user in a room is what the table says last.
use snc_platform.Prelude.{
  ℕ, suc, ◌+◌, ◌*◌, ◌<◌, String, ◌≡◌, refl, ap, ◌∙◌, inl, inr, Bool, true, false, Option, none,
  some, List, [], ◌∷◌, ◌++◌, ◌&&◌, ◌||◌, str_eq, str_eq_refl, if◌then◌else◌, Bool-cases, append-nil,
  arith, All,
}
use snc_platform.Prelude.Table.{select, first, order_by}
use snc_platform.Prelude.Table.Laws.{select-append}
use snc_platform.Prelude.Table.Order.{All-mono, All-select, order_by-last_first}
use snc_platform.Shared.{Result, ok, err, not_found_error}
use snc_platform.Chat.Store.{
  ActionKind, timeout, ban, unban, ModerationAction, User, ChatStore, ChatEnv, is_ban, is_unban,
  newest_action,
}
use snc_platform.Chat.Authority.{can_moderate_room, is_user_banned, targets, is_ban_or_unban}
use snc_platform.Chat.Moderation.{
  Request, new_action, act_on, target_of, existing_ban, ban_unless, ban_allowed, ban_user,
  unban_allowed, unban_user, timeout_allowed, timeout_user,
}

-- Every action was recorded before now.
abbrev pub IsPast : ChatStore → Type 0
IsPast s = All (λ a. a.created_at < s.now) s.actions

abbrev pub with_action : ModerationAction → ChatStore → ChatStore
with_action a s = record s { actions = s.actions ++ a ∷ []; ids_used = suc s.ids_used }

older_sorts_after :
    (now : ℕ) (a : ModerationAction) (rs : List ModerationAction)
    → a.created_at ≡ now
    → All (λ x. x.created_at < now) rs
    → All (λ x. newest_action x a ≡ false) rs
older_sorts_after now a rs e h = All-mono _ _ rs (λ x before. ground arith) h

-- A new action is the newest of those that it is among.
pub newest_first :
    (p : ModerationAction → Bool) (a : ModerationAction) (s : ChatStore)
    → a.created_at ≡ s.now
    → IsPast s
    → order_by newest_action (select p (s.actions ++ a ∷ [])) ≡ (
        if p a
        then a ∷ order_by newest_action (select p s.actions)
        else order_by newest_action (select p s.actions))
unfolding select
newest_first p a s e h = elim (Bool-cases (p a)) [
  | inl hit ↦
      rw (select-append p s.actions (a ∷ []), hit)
        (order_by-last_first newest_action (select p s.actions) a (
          older_sorts_after s.now a (select p s.actions) e
            (All-select _ p s.actions (All-mono _ _ s.actions (λ x g _. g) h))))
  | inr miss ↦
      rw (select-append p s.actions (a ∷ []), miss) (ap (order_by newest_action) (append-nil _))
]

-- A ban or unban of the user in the room decides; any other action leaves the answer.
banned_after :
    (u room : String) (a : ModerationAction) (s : ChatStore)
    → a.created_at ≡ s.now
    → IsPast s
    → is_user_banned u room (with_action a s)
      ≡ (if targets u room a && is_ban_or_unban a then is_ban a.action else is_user_banned u room s)
unfolding is_user_banned first
banned_after u room a s e h = rw (newest_first (targets u room) a s e h) (ground arith)

module _ (env : ChatEnv) (q : Request) (s : ChatStore) (past : IsPast s) where
  abbrev IsBannedAfter : Bool → ChatStore × Result ModerationAction → Type 0
  IsBannedAfter b out =
      (a : ModerationAction) → out.1 ≡ ok a → is_user_banned q.target_user_id q.room_id out.0 ≡ b

  act_on-decides :
      (kind : ActionKind) (duration : Option ℕ) (reason : Option String) (expires : Option ℕ)
      (target : Option User)
      → (is_ban kind || is_unban kind) ≡ true
      → IsBannedAfter (is_ban kind) (act_on env q kind duration reason expires target s)
  unfolding act_on
  act_on-decides kind duration reason expires none decides a e = cc e
  act_on-decides kind duration reason expires (some u) decides a e =
      banned_after q.target_user_id q.room_id
        (new_action env q u.name kind duration reason expires s) s refl past
      ∙ rw (str_eq_refl q.target_user_id, str_eq_refl q.room_id, decides)

  ban_unless-bans :
      (existing : Option ModerationAction)
      → ((a : ModerationAction)
          → existing ≡ some a
          → is_user_banned q.target_user_id q.room_id s ≡ true)
      → IsBannedAfter true (ban_unless env q existing s)
  unfolding ban_unless
  ban_unless-bans none was a e = act_on-decides ban none q.reason none (target_of q s) refl a e
  ban_unless-bans (some b) was a e = was b refl

  existing_ban-banned :
      (a : ModerationAction)
      → existing_ban q s ≡ some a
      → is_user_banned q.target_user_id q.room_id s ≡ true
  existing_ban-banned a e = elim (Bool-cases (is_user_banned q.target_user_id q.room_id s)) [
    | inl banned ↦ banned
    | inr free ↦ cc (rw free at e)
  ]

  ban_allowed-bans : (r : Result (Unit {0})) → IsBannedAfter true (ban_allowed env q r s)
  unfolding ban_allowed
  ban_allowed-bans (err x) a e = cc e
  ban_allowed-bans (ok _) a e = ban_unless-bans (existing_ban q s) existing_ban-banned a e

  ban_request-bans : IsBannedAfter true (ban_user env q s)
  unfolding ban_user
  ban_request-bans = elim (Bool-cases (str_eq q.target_user_id q.moderator_user_id)) [
    | inl own ↦ rw own (λ a e. cc e)
    | inr other ↦ rw other (ban_allowed-bans (can_moderate_room q.moderator_user_id q.room_id s))
  ]

  unban_banned-unbans :
      (b : Bool)
      → IsBannedAfter false (
          if b
          then act_on env q unban none none none (target_of q s) s
          else (s, err (not_found_error "User is not currently banned")))
  unban_banned-unbans true a e = act_on-decides unban none none none (target_of q s) refl a e
  unban_banned-unbans false a e = cc e

  unban_allowed-unbans : (r : Result (Unit {0})) → IsBannedAfter false (unban_allowed env q r s)
  unfolding unban_allowed
  unban_allowed-unbans (err x) a e = cc e
  unban_allowed-unbans (ok _) a e =
      unban_banned-unbans (is_user_banned q.target_user_id q.room_id s) a e

  -- When every recorded action is strictly older than the clock and a ban is answered
  -- with an action, the user is banned from the room afterwards.
  pub ban_user-bans :
      (a : ModerationAction)
      → (ban_user env q s).1 ≡ ok a
      → is_user_banned q.target_user_id q.room_id (ban_user env q s).0 ≡ true
  ban_user-bans = ban_request-bans

  -- When every recorded action is strictly older than the clock and an unban is
  -- answered with an action, the user is not banned from the room afterwards.
  pub unban_user-unbans :
      (a : ModerationAction)
      → (unban_user env q s).1 ≡ ok a
      → is_user_banned q.target_user_id q.room_id (unban_user env q s).0 ≡ false
  unfolding unban_user
  unban_user-unbans = unban_allowed-unbans (can_moderate_room q.moderator_user_id q.room_id s)

  timeout_act-keeps :
      (seconds : ℕ) (u room : String) (target : Option User)
      → is_user_banned u room
          (act_on env q timeout (some seconds) q.reason (some (s.now + seconds * 1000)) target s).0
        ≡ is_user_banned u room s
  unfolding act_on
  timeout_act-keeps seconds u room none = refl
  timeout_act-keeps seconds u room (some who) =
      banned_after u room
        (new_action env q who.name timeout (some seconds) q.reason (some (s.now + seconds * 1000))
          s)
        s refl past
      ∙ ground arith

  timeout_allowed-keeps :
      (seconds : ℕ) (r : Result (Unit {0})) (u room : String)
      → is_user_banned u room (timeout_allowed env q seconds r s).0 ≡ is_user_banned u room s
  unfolding timeout_allowed
  timeout_allowed-keeps seconds (err x) u room = refl
  timeout_allowed-keeps seconds (ok _) u room = timeout_act-keeps seconds u room (target_of q s)

  -- A timeout neither bans nor unbans anyone, in any room, when every recorded
  -- action is strictly older than the clock.
  pub timeout_user-keeps_bans :
      (seconds : ℕ) (u room : String)
      → is_user_banned u room (timeout_user env q seconds s).0 ≡ is_user_banned u room s
  unfolding timeout_user
  timeout_user-keeps_bans seconds u room =
      elim (Bool-cases (str_eq q.target_user_id q.moderator_user_id)) [
        | inl own ↦ rw own refl
        | inr other ↦ rw other (
            timeout_allowed-keeps seconds (can_moderate_room q.moderator_user_id q.room_id s) u
              room)
      ]
