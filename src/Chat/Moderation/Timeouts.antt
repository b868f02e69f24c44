-- ===== src/Chat/Moderation/Timeouts.antt =====
-- Timeouts against the audit table: the newest one decides.
use snc_platform.Prelude.{
  ℕ, ◌+◌, ◌*◌, ◌<◌, String, ◌≡◌, refl, ◌∙◌, Bool, true, false, Option, none, some, str_eq,
  str_eq_refl, ltb, lt→ltb, if◌then◌else◌, arith,
}
use snc_platform.Prelude.Table.{first}
use snc_platform.Shared.{Result, ok, err, forbidden_error}
use snc_platform.Chat.Store.{timeout, ModerationAction, User, ChatStore, ChatEnv}
use snc_platform.Chat.Authority.{can_moderate_room, timeouts_of, still_running, is_user_timed_out}
use snc_platform.Chat.Moderation.{
  Request, new_action, act_on, target_of, timeout_allowed, timeout_user,
}
use snc_platform.Chat.Moderation.Bans.{IsPast, with_action, newest_first}

-- A new timeout of the user in the room decides; any other action leaves the answer.
timed_out_after :
    (u room : String) (a : ModerationAction) (s : ChatStore)
    → a.created_at ≡ s.now
    → IsPast s
    → is_user_timed_out u room (with_action a s) ≡ (
        if timeouts_of u room a
        then still_running s.now a.expires_at
        else is_user_timed_out u room s)
unfolding is_user_timed_out first
timed_out_after u room a s e h = rw (newest_first (timeouts_of u room) a s e h) (ground arith)

module _ (env : ChatEnv) (q : Request) (s : ChatStore) (past : IsPast s) (seconds : ℕ)
    (some_time : 0 < seconds) where
  act_on-times_out :
      (target : Option User) (a : ModerationAction)
      → (act_on env q timeout (some seconds) q.reason (some (s.now + seconds * 1000)) target s).1
        ≡ ok a
      → is_user_timed_out q.target_user_id q.room_id
          (act_on env q timeout (some seconds) q.reason (some (s.now + seconds * 1000)) target s).0
        ≡ some (s.now + seconds * 1000)
  unfolding act_on
  act_on-times_out none a e = cc e
  act_on-times_out (some u) a e =
      let later : ltb s.now (s.now + seconds * 1000) ≡ true =
        lt→ltb _ _ (omega (arith, some_time)) in
      timed_out_after q.target_user_id q.room_id
        (new_action env q u.name timeout (some seconds) q.reason (some (s.now + seconds * 1000)) s)
        s refl past
      ∙ rw (str_eq_refl q.target_user_id, str_eq_refl q.room_id, later) refl

  timeout_allowed-times_out :
      (r : Result (Unit {0})) (a : ModerationAction)
      → (timeout_allowed env q seconds r s).1 ≡ ok a
      → is_user_timed_out q.target_user_id q.room_id (timeout_allowed env q seconds r s).0
        ≡ some (s.now + seconds * 1000)
  unfolding timeout_allowed
  timeout_allowed-times_out (err x) a e = cc e
  timeout_allowed-times_out (ok _) a e = act_on-times_out (target_of q s) a e

  -- When every recorded action is strictly older than the clock and a timeout of at least a
  -- second is answered with an action, the user is timed out in the room until just that many seconds from now, however long
  -- an earlier timeout still had to run.
  pub timeout_user-times_out :
      (a : ModerationAction)
      → (timeout_user env q seconds s).1 ≡ ok a
      → is_user_timed_out q.target_user_id q.room_id (timeout_user env q seconds s).0
        ≡ some (s.now + seconds * 1000)
  unfolding timeout_user
  timeout_user-times_out a = by_self (str_eq q.target_user_id q.moderator_user_id)
    where
      by_self :
          (b : Bool)
          → let out : ChatStore × Result ModerationAction =
              if b
              then (s, err (forbidden_error "You cannot timeout yourself"))
              else timeout_allowed env q seconds
                  (can_moderate_room q.moderator_user_id q.room_id s)
                  s in
            out.1 ≡ ok a
            → is_user_timed_out q.target_user_id q.room_id out.0 ≡ some (s.now + seconds * 1000)
      by_self true e = cc e
      by_self false e =
          timeout_allowed-times_out (can_moderate_room q.moderator_user_id q.room_id s) a e
