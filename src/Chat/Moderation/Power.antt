-- ===== src/Chat/Moderation/Power.antt =====
-- Who moderates, and what a refused request leaves.
use mathlib.Core.List.{Memᴰ}
use snc_platform.Prelude.{
  ℕ, ◌+◌, ◌*◌, String, ◌≡◌, refl, ◌⊎◌, inl, inr, Bool, true, false, Option, none, some, ◌&&◌,
  str_eq, str_eq_iff, if◌then◌else◌, Bool-cases, arith,
}
use snc_platform.Prelude.Table.{first, any}
use snc_platform.Prelude.Table.Laws.{first-mem, any-true_mem}
use snc_platform.Shared.{AppError, Result, ok, err}
use snc_platform.Chat.Store.{
  Room, ActionKind, timeout, ban, unban, ModerationAction, User, ChatStore, ChatEnv, room_has_id,
}
use snc_platform.Chat.Authority.{
  can_moderate_room, can_moderate, moderates, is_user_banned, no_authority,
}
use snc_platform.Access.{UserRole, Member, owner, editor, viewer, MemberRole}
use snc_platform.Chat.Authority.{room_creator, owns_creator, is_admin_role, is_owner_of, is_owner}
use snc_platform.Chat.Moderation.{
  Request, act_on, target_of, existing_ban, ban_unless, ban_allowed, ban_user, unban_allowed,
  unban_user, timeout_allowed, timeout_user,
}
use snc_platform.Chat.Moderation.Bans.{with_action}

-- The user is an admin of the platform, or an owner of the creator behind the room.
abbrev pub HasPowerIn : String → Room → ChatStore → Type 0
HasPowerIn u room s =
    ((r : UserRole) × Memᴰ r s.user_roles × (r.user_id ≡ u) × (r.role ≡ "admin"))
    ⊎ ((creator : String) × (room_creator room s ≡ some creator)
        × ((m : Member) × Memᴰ m s.members
            × (m.user_id ≡ u)
            × (m.creator_id ≡ creator)
            × (m.role ≡ owner)))

abbrev pub HasPower : String → String → ChatStore → Type 0
HasPower u room_id s = (room : Room) × Memᴰ room s.rooms × (room.id ≡ room_id) × HasPowerIn u room s

owner_only : (r : MemberRole) → is_owner r ≡ true → r ≡ owner
owner_only owner e = refl
owner_only editor e = cc e
owner_only viewer e = cc e

both : (a b : Bool) → (a && b) ≡ true → (a ≡ true) × (b ≡ true)
both a b e = ground arith

owns_creator-HasPowerIn :
    (u : String) (room : Room) (s : ChatStore) (creator : Option String)
    → room_creator room s ≡ creator
    → owns_creator u creator s ≡ true
    → HasPowerIn u room s
unfolding owns_creator
owns_creator-HasPowerIn u room s none e h = cc h
owns_creator-HasPowerIn u room s (some creator) e h =
    let (m, at, hit) = any-true_mem (is_owner_of u creator) s.members h in
    let (a, bc) = both (str_eq m.user_id u) (str_eq m.creator_id creator && is_owner m.role) hit in
    let (b, c) = both (str_eq m.creator_id creator) (is_owner m.role) bc in
    inr (
      creator,
      e,
      (
        m,
        at,
        (str_eq_iff m.user_id u).0 a,
        (str_eq_iff m.creator_id creator).0 b,
        owner_only m.role c,
      ),
    )

moderates-HasPowerIn :
    (u : String) (room : Room) (s : ChatStore) → moderates u room s ≡ true → HasPowerIn u room s
unfolding moderates
moderates-HasPowerIn u room s e = elim (Bool-cases (any (is_admin_role u) s.user_roles)) [
  | inl admin ↦
      let (r, at, hit) = any-true_mem (is_admin_role u) s.user_roles admin in
      let (a, b) = both (str_eq r.user_id u) (str_eq r.role "admin") hit in
      inl (r, at, (str_eq_iff r.user_id u).0 a, (str_eq_iff r.role "admin").0 b)
  | inr other ↦ owns_creator-HasPowerIn u room s (room_creator room s) refl (rw other at e)
]

can_moderate_room-HasPower :
    (u room_id : String) (s : ChatStore)
    → can_moderate_room u room_id s ≡ ok tt
    → HasPower u room_id s
unfolding can_moderate_room can_moderate
can_moderate_room-HasPower u room_id s = by_room (first (room_has_id room_id) s.rooms) refl
  where
    passed : (b : Bool) → (if b then ok tt else err no_authority) ≡ ok (tt {0}) → b ≡ true
    passed true e = refl
    passed false e = cc e

    by_room :
        (o : Option Room)
        → first (room_has_id room_id) s.rooms ≡ o
        → can_moderate u o s ≡ ok tt
        → HasPower u room_id s
    by_room none f e = cc e
    by_room (some room) f e =
        let (at, hit) = first-mem (room_has_id room_id) s.rooms f in
        (
          room,
          at,
          (str_eq_iff room.id room_id).0 hit,
          moderates-HasPowerIn u room s (passed (moderates u room s) e),
        )

-- A request is refused and changes nothing, or its author has power in the room and it is answered
-- by an action, which is the new last row of the audit table unless the store is as it was.
abbrev pub IsModerated : Request → ChatStore → ChatStore × Result ModerationAction → Type 0
IsModerated q s out =
    ((out.0 ≡ s) × ((e : AppError) × (out.1 ≡ err e)))
    ⊎ (HasPower q.moderator_user_id q.room_id s
        × ((a : ModerationAction) × (out.1 ≡ ok a) × ((out.0 ≡ s) ⊎ (out.0 ≡ with_action a s))))

module _ (env : ChatEnv) (q : Request) (s : ChatStore) where
  act_on-IsModerated :
      (kind : ActionKind) (duration : Option ℕ) (reason : Option String) (expires : Option ℕ)
      (target : Option User)
      → HasPower q.moderator_user_id q.room_id s
      → IsModerated q s (act_on env q kind duration reason expires target s)
  unfolding act_on
  act_on-IsModerated kind duration reason expires none power = inl (refl, (_, refl))
  act_on-IsModerated kind duration reason expires (some u) power = inr (power, (_, refl, inr refl))

  ban_unless-IsModerated :
      (existing : Option ModerationAction)
      → HasPower q.moderator_user_id q.room_id s
      → IsModerated q s (ban_unless env q existing s)
  unfolding ban_unless
  ban_unless-IsModerated none power =
      act_on-IsModerated ban none q.reason none (target_of q s) power
  ban_unless-IsModerated (some a) power = inr (power, (a, refl, inl refl))

  ban_allowed-IsModerated :
      (r : Result (Unit {0}))
      → can_moderate_room q.moderator_user_id q.room_id s ≡ r
      → IsModerated q s (ban_allowed env q r s)
  unfolding ban_allowed
  ban_allowed-IsModerated (err x) e = inl (refl, (x, refl))
  ban_allowed-IsModerated (ok _) e =
      ban_unless-IsModerated (existing_ban q s) (can_moderate_room-HasPower _ _ s e)

  unban_allowed-IsModerated :
      (r : Result (Unit {0}))
      → can_moderate_room q.moderator_user_id q.room_id s ≡ r
      → IsModerated q s (unban_allowed env q r s)
  unfolding unban_allowed
  unban_allowed-IsModerated (err x) e = inl (refl, (x, refl))
  unban_allowed-IsModerated (ok _) e =
      elim (Bool-cases (is_user_banned q.target_user_id q.room_id s)) [
        | inl banned ↦ rw banned (
            act_on-IsModerated unban none none none (target_of q s)
              (can_moderate_room-HasPower _ _ s e))
        | inr free ↦ rw free (inl (refl, (_, refl)))
      ]

  timeout_allowed-IsModerated :
      (seconds : ℕ) (r : Result (Unit {0}))
      → can_moderate_room q.moderator_user_id q.room_id s ≡ r
      → IsModerated q s (timeout_allowed env q seconds r s)
  unfolding timeout_allowed
  timeout_allowed-IsModerated seconds (err x) e = inl (refl, (x, refl))
  timeout_allowed-IsModerated seconds (ok _) e =
      act_on-IsModerated timeout (some seconds) q.reason (some (s.now + seconds * 1000))
        (target_of q s) (can_moderate_room-HasPower _ _ s e)

  -- A ban, an unban or a timeout either is refused and changes nothing, or its author is an admin
  -- or an owner of the room's creator and the answer is an action, of which at most one is new.
  pub moderation-IsModerated :
      (seconds : ℕ)
      → IsModerated q s (ban_user env q s)
        × IsModerated q s (unban_user env q s)
        × IsModerated q s (timeout_user env q seconds s)
  unfolding ban_user unban_user timeout_user
  moderation-IsModerated seconds =
      let allowed = can_moderate_room q.moderator_user_id q.room_id s in
      elim (Bool-cases (str_eq q.target_user_id q.moderator_user_id)) [
        | inl own ↦
            rw own
              (inl (refl, (_, refl)), unban_allowed-IsModerated allowed refl, inl (refl, (_, refl)))
        | inr other ↦ rw other (
          ban_allowed-IsModerated allowed refl,
          unban_allowed-IsModerated allowed refl,
          timeout_allowed-IsModerated seconds allowed refl,
        )
      ]
