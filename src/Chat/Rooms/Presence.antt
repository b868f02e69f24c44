-- ===== src/Chat/Rooms/Presence.antt =====
-- What the presence of a room tells of its clients.
use snc_platform.Prelude.{
  suc, String, ◌≡◌, refl, ap, ◌∙◌, subst, inl, inr, Bool, true, false, ◌&&◌, ◌||◌, Option, none,
  some, List, [], ◌∷◌, ◌++◌, str_eq, str_eq_iff, if◌then◌else◌, length, Bool-cases, Option-cases,
  arith,
}
use snc_platform.Prelude.Table.{select, any, count_where}
use snc_platform.Prelude.Table.Laws.{any-append}
use snc_platform.Prelude.Maps.{lookup, str_eq_sym}
use snc_platform.Chat.Rooms.{
  ChatClient, PresenceUser, RoomPresence, Members, Hub, Readiness, prune_stale_clients, user_of,
  seen_in, see, collect_users, presence_of, room_members, get_room_presence,
}

-- The client shows as the user u: it has that user id, and a user name.
abbrev pub shows_as : String → ChatClient → Bool
shows_as u c = elim (user_of c) [ none ↦ false | some x ↦ str_eq x.user_id u ]

abbrev pub HasDistinctUsers : List PresenceUser → Type 0
HasDistinctUsers [] = Unit
HasDistinctUsers (x ∷ users) = (seen_in x.user_id users ≡ false) × HasDistinctUsers users

HasDistinctUsers-snoc :
    (users : List PresenceUser) (x : PresenceUser)
    → HasDistinctUsers users
    → seen_in x.user_id users ≡ false
    → HasDistinctUsers (users ++ x ∷ [])
unfolding any
HasDistinctUsers-snoc [] x d new = (refl, tt)
HasDistinctUsers-snoc (y ∷ users) x (out, d) new = (
  any-append (λ z. str_eq z.user_id y.user_id) users (x ∷ [])
      ∙ rw (out, str_eq_sym x.user_id y.user_id) (ground (arith, new)),
  HasDistinctUsers-snoc users x d (ground (arith, new)),
)

see-seen_in :
    (c : ChatClient) (users : List PresenceUser) (u : String)
    → seen_in u (see c users) ≡ (seen_in u users || shows_as u c)
unfolding any
see-seen_in c users u = by_user (user_of c)
  where
    right_false : (a : Bool) → a ≡ (a || false)
    right_false a = ground arith

    last : (a b : Bool) → (a || (b || false)) ≡ (a || b)
    last a b = ground arith

    by_user :
        (o : Option PresenceUser)
        → seen_in u (elim o [
          | none ↦ users
          | some x ↦ if seen_in x.user_id users then users else users ++ x ∷ []
        ])
          ≡ (seen_in u users || (elim o [ none ↦ false | some x ↦ str_eq x.user_id u ]))
    by_user none = right_false (seen_in u users)
    by_user (some x) = elim (Bool-cases (seen_in x.user_id users)) [
      | inr new ↦ rw new (
          any-append (λ z. str_eq z.user_id u) users (x ∷ [])
          ∙ last (seen_in u users) (str_eq x.user_id u))
      | inl old ↦ rw old (elim (Bool-cases (str_eq x.user_id u)) [
        | inl same ↦
            rw (same, subst (λ z. seen_in z users ≡ true) ((str_eq_iff x.user_id u).0 same) old)
              refl
        | inr other ↦ rw other (right_false (seen_in u users))
      ])
    ]

see-HasDistinctUsers :
    (c : ChatClient) (users : List PresenceUser)
    → HasDistinctUsers users
    → HasDistinctUsers (see c users)
see-HasDistinctUsers c users d = by_user (user_of c)
  where
    by_user :
        (o : Option PresenceUser)
        → HasDistinctUsers (elim o [
          | none ↦ users
          | some x ↦ if seen_in x.user_id users then users else users ++ x ∷ []
        ])
    by_user none = d
    by_user (some x) = elim (Bool-cases (seen_in x.user_id users)) [
      | inl old ↦ rw old d
      | inr new ↦ rw new (HasDistinctUsers-snoc users x d new)
    ]

collect_users_lem :
    (ms : Members) (users : List PresenceUser)
    → HasDistinctUsers users
    → HasDistinctUsers (collect_users ms users)
      × ((u : String)
          → seen_in u (collect_users ms users) ≡ (seen_in u users || any (shows_as u) ms))
unfolding collect_users any
collect_users_lem [] users d = (d, λ u. right_false (seen_in u users))
  where
    right_false : (a : Bool) → a ≡ (a || false)
    right_false a = ground arith
collect_users_lem (c ∷ ms) users d =
    let (distinct, seen) = collect_users_lem ms (see c users) (see-HasDistinctUsers c users d) in
    (
      distinct,
      λ u.
          seen u
          ∙ ap (λ b. b || any (shows_as u) ms) (see-seen_in c users u)
          ∙ assoc (seen_in u users) (shows_as u c) (any (shows_as u) ms),
    )
  where
    assoc : (a b e : Bool) → ((a || b) || e) ≡ (a || (b || e))
    assoc a b e = ground arith

length-prune :
    (ready : Readiness) (ms : Members)
    → length (prune_stale_clients ready ms) ≡ count_where (λ c. ready c.ref) ms
unfolding select count_where
length-prune ready [] = refl
length-prune ready (c ∷ ms) = elim (Bool-cases (ready c.ref)) [
  | inl up ↦ rw up (ap suc (length-prune ready ms))
  | inr down ↦ rw down (length-prune ready ms)
]

any-prune_shows :
    (ready : Readiness) (u : String) (ms : Members)
    → any (shows_as u) (prune_stale_clients ready ms) ≡ any (λ c. ready c.ref && shows_as u c) ms
unfolding any select
any-prune_shows ready u [] = refl
any-prune_shows ready u (c ∷ ms) = elim (Bool-cases (ready c.ref)) [
  | inl up ↦ rw (up, any-prune_shows ready u ms) refl
  | inr down ↦ rw down (any-prune_shows ready u ms)
]

-- The presence counts the clients whose socket is open, and lists just the users that such a client
-- shows as, each of them once.
abbrev pub IsExact : Readiness → Members → RoomPresence → Type 0
IsExact ready ms p =
    (p.viewer_count ≡ count_where (λ c. ready c.ref) ms)
    × HasDistinctUsers p.users
    × ((u : String) → seen_in u p.users ≡ any (λ c. ready c.ref && shows_as u c) ms)

presence_of-IsExact :
    (ready : Readiness) (ms : Members)
    → IsExact ready ms (presence_of (prune_stale_clients ready ms))
unfolding any
presence_of-IsExact ready ms =
    let (distinct, seen) = collect_users_lem (prune_stale_clients ready ms) [] tt in
    (length-prune ready ms, distinct, λ u. seen u ∙ any-prune_shows ready u ms)

-- The presence of a room counts its clients whose socket is open, and lists just the users that such
-- a client shows as, each of them once.
pub get_room_presence-IsExact :
    (ready : Readiness) (r : String) (s : Hub)
    → IsExact ready (room_members r s) (get_room_presence ready r s).0
unfolding get_room_presence any count_where
get_room_presence-IsExact ready r s = elim (Option-cases (lookup r s.rooms)) [
  | inl e ↦ rw (e, get_room_presence, room_members) (refl, tt, λ u. refl)
  | inr (ms, e) ↦ rw (e, get_room_presence, room_members) (presence_of-IsExact ready ms)
]
